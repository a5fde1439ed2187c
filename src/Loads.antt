-- ===== src/Loads.antt =====
-- The hooks that load one thing for what is chosen: client/src/hooks/useKubePod.ts,
-- useKubeResource.ts, useKubeKinds.ts, useKubeCounts.ts and useContainerInspect.ts. They share the
-- effect, which asks when the choice changes and, in most of them, cancels what was asked before. A
-- request that waits for its answer is an element of the state.
pub mod Hooks
pub mod Own
pub mod Race
mod Tests
use wiremap.Base.{
  ℕ, zero, suc, Bool, true, false, Option, none, some, List, [], ◌∷◌, ◌++◌, map, get_elem?, Text,
  if◌then◌else◌,
}

pub data Answer (A : Type 0) : Type 0 where
  arrived : A → Answer A
  failed : (message : Text) → Answer A

-- What a hook does with its state `S`, for a choice in `K` and data in `A`.
pub record Hook (K S A : Type 0) : Type 0 where
  pub restart : K → S → S
  pub asks : K → Bool
  pub cancels : Bool
  pub arrive : A → S → S
  pub fail : Text → S → S

pub record Request (K : Type 0) : Type 0 where
  pub of : K
  pub cancelled : Bool

pub record Loader (K S : Type 0) : Type 0 where
  pub chosen : K
  pub shown : S
  pub requests : List (Request K)

pub data Event (K : Type 0) : Type 0 where
  -- Another choice.
  changed : K → Event K
  -- The hook asks again for the same choice: a round of its interval.
  again : Event K
  -- The answer to the `n`th request that waits, as the server gives it at some time.
  answered : (n time : ℕ) → Event K

module _ {K : Type 0} where
  abbrev pub cancel : Request K → Request K
  cancel r = record r { cancelled = true }

  abbrev pub drop_at : List (Request K) → ℕ → List (Request K)
  drop_at [] n = []
  drop_at (r ∷ rs) zero = rs
  drop_at (r ∷ rs) (suc n) = r ∷ drop_at rs n

  module _ {S A : Type 0} (h : Hook K S A) where
    abbrev pub asked : K → List (Request K)
    asked k = if h.asks k then record { of = k; cancelled = false } ∷ [] else []

    -- The clean-up of the last effect, and the effect for the new choice.
    unfoldable pub change : K → Loader K S → Loader K S
    change k l = record {
      chosen = k;
      shown = h.restart k l.shown;
      requests = (if h.cancels then map cancel l.requests else l.requests) ++ asked k;
    }

    unfoldable pub ask_again : Loader K S → Loader K S
    ask_again l = record l { requests = l.requests ++ asked l.chosen }

    abbrev pub settle : Answer A → S → S
    settle (Answer.arrived a) s = h.arrive a s
    settle (Answer.failed message) s = h.fail message s

    abbrev pub take_answer :
        Option (Request K) → (K → Answer A) → List (Request K) → Loader K S → Loader K S
    take_answer none get rest l = l
    take_answer (some r) get rest l = record l {
      shown = if r.cancelled then l.shown else settle (get r.of) l.shown;
      requests = rest;
    }

    -- `get k t` is what the server answers for `k` at time `t`.
    unfoldable pub step : (K → ℕ → Answer A) → Event K → Loader K S → Loader K S
    unfolding change ask_again
    step get (Event.changed k) l = change k l
    step get Event.again l = ask_again l
    step get (Event.answered n time) l =
        take_answer (get_elem? l.requests n) (λ k. get k time) (drop_at l.requests n) l

    unfoldable pub run : (K → ℕ → Answer A) → List (Event K) → Loader K S → Loader K S
    unfolding step
    run get [] l = l
    run get (e ∷ es) l = run get es (step get e l)

    -- The hook when it is mounted: nothing waits, and the effect runs.
    unfoldable pub mounted : K → S → Loader K S
    unfolding change
    mounted k s = change k (record { chosen = k; shown = s; requests = [] })
