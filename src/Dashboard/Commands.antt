-- ===== src/Dashboard/Commands.antt =====
-- Submitting a command, KubeDashboard.vm.ts.
use wiremap.Dashboard.{Dashboard}
