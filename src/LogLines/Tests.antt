-- ===== src/LogLines/Tests.antt =====
-- Lines of a log, and the theorem at one.
use wiremap.Base.{◌≡◌, refl, Text, codes}
use wiremap.Streams.{LogType}
use wiremap.LogLines.{fold_case, level_of, level_patterns, message_of, other_level, timestamp}
use wiremap.LogLines.Words.{level_in, level_of-runs, runs}

abbrev line : Text
line = codes "2024-05-01T10:00:00.123Z Warning: no errors"

stamp : timestamp line ≡ codes "2024-05-01T10:00:00.123Z"
unfolding timestamp
stamp = refl

rest : message_of line ≡ codes "Warning: no errors"
unfolding message_of
rest = refl

warns : level_of LogType.stderr (codes "Warning: no errors") ≡ codes "warn"
unfolding level_of
warns = refl

level_of-runs_example :
    level_of LogType.stderr (codes "Warning: no errors")
    ≡ level_in level_patterns
        (other_level LogType.stderr)
        (runs (fold_case (codes "Warning: no errors")))
level_of-runs_example = level_of-runs LogType.stderr (codes "Warning: no errors")
