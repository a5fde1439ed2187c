-- ===== src/Loads/Race.antt =====
-- An answer of useContainerInspect.ts for a container that is not chosen any more.
use wiremap.Base.{ℕ, ◌≡◌, refl, false, some, [], ◌∷◌, Text}
use wiremap.DockerTypes.{ContainerInspect}
use wiremap.Loads.{Answer, Event, mounted, run}
use wiremap.Loads.Hooks.{ContainerRef, InspectState, container_inspect}

abbrev pub one : Text → ℕ → Text → ContainerRef
one host c id = record { host = host; container_id = some (c ∷ id) }

-- Let one container be chosen and then another, and let the answer for the first come after that
-- for the second. The hook then shows what was asked about the first, with nothing loading and no
-- request left to mend it, while the second is chosen.
pub late_inspect :
    (host : Text) (c d : ℕ) (id other : Text) (s : InspectState)
    (get : ContainerRef → ℕ → Answer ContainerInspect) (t u : ℕ) (first : ContainerInspect)
    → get (one host c id) u ≡ Answer.arrived first
    → run container_inspect get
        (Event.changed (one host d other) ∷ Event.answered 1 t ∷ Event.answered 0 u ∷ [])
        (mounted container_inspect (one host c id) s)
      ≡ record {
        chosen = one host d other;
        shown = record { inspect = some first; loading = false };
        requests = [];
      }
unfolding run mounted container_inspect
late_inspect host c d id other s get t u first e = rw e refl
