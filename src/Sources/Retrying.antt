-- ===== src/Sources/Retrying.antt =====
-- How often the hook asks.
use wiremap.Base.{
  ℕ, zero, suc, ◌+◌, ◌≤◌, ◌≡◌, refl, inl, inr, ◌⊎◌, Bool, true, false, Option, none, some, List, [],
  ◌∷◌, Text, arith,
}
use wiremap.Sources.{
  Attempt, Event, Source, Sources, all_sources, caught, initial_source, mounted, refuse, run,
  selected, step, take_sources, time_out,
}
use wiremap.Sources.Counting.{AreDue, IsCounted, answers, refusals, timers, run-IsCounted}

-- A request or a timer is under way.
abbrev is_under_way : Attempt → Bool
is_under_way (Attempt.asking n) = true
is_under_way (Attempt.waiting n) = true
is_under_way Attempt.ended = false

-- The hook is loading exactly while a request or a timer is under way.
abbrev IsInStep : Sources → Type 0
IsInStep s = s.loading ≡ is_under_way s.attempt

caught-IsInStep : (n : ℕ) (s : Sources) → s.loading ≡ true → IsInStep (caught n s)
caught-IsInStep zero s h = refl
caught-IsInStep (suc n) s h = h

selected-IsInStep :
    (n : ℕ) (id : Option Text) (s : Sources) → s.loading ≡ true → IsInStep (selected n id s)
selected-IsInStep n none s h = caught-IsInStep n s h
selected-IsInStep n (some id) s h = refl

take_sources-IsInStep :
    (at : Attempt) (hash : Text) (all : List Source) (s : Sources)
    → s.loading ≡ is_under_way at
    → IsInStep s
    → IsInStep (take_sources at hash all s)
take_sources-IsInStep (Attempt.asking n) hash all s l h =
    selected-IsInStep n (initial_source hash all) (record s { sources = all }) l
take_sources-IsInStep (Attempt.waiting n) hash all s l h = h
take_sources-IsInStep Attempt.ended hash all s l h = h

refuse-IsInStep :
    (at : Attempt) (s : Sources) → s.loading ≡ is_under_way at → IsInStep s → IsInStep (refuse at s)
refuse-IsInStep (Attempt.asking n) s l h = caught-IsInStep n s l
refuse-IsInStep (Attempt.waiting n) s l h = h
refuse-IsInStep Attempt.ended s l h = h

time_out-IsInStep :
    (at : Attempt) (s : Sources)
    → s.loading ≡ is_under_way at
    → IsInStep s
    → IsInStep (time_out at s)
time_out-IsInStep (Attempt.waiting n) s l h = l
time_out-IsInStep (Attempt.asking n) s l h = h
time_out-IsInStep Attempt.ended s l h = h

step-IsInStep : (hash : Text) (e : Event) (s : Sources) → IsInStep s → IsInStep (step hash e s)
unfolding step
step-IsInStep hash (Event.answered hosts clusters) s h =
    take_sources-IsInStep s.attempt hash (all_sources hosts clusters) s h h
step-IsInStep hash Event.refused s h = refuse-IsInStep s.attempt s h h
step-IsInStep hash Event.timed_out s h = time_out-IsInStep s.attempt s h h
step-IsInStep hash (Event.select id) s h = h

run-IsInStep : (hash : Text) (es : List Event) (s : Sources) → IsInStep s → IsInStep (run hash es s)
unfolding run
run-IsInStep hash [] s h = h
run-IsInStep hash (e ∷ es) s h = run-IsInStep hash es (step hash e s) (step-IsInStep hash e s h)

-- What the counts say of the hook while it is loading and after it.
abbrev pub IsLoading : List Event → Sources → Type 0
IsLoading es s = (s.loading ≡ true) × (answers es + refusals es ≤ 5) × (timers es ≤ 5)

abbrev pub HasEnded : List Event → Sources → Type 0
HasEnded es s =
    (s.loading ≡ false)
    × (s.attempt ≡ Attempt.ended)
    × (answers es + refusals es ≤ 6)
    × (answers es + refusals es ≡ timers es + 1)
    × (answers es ≡ 0 → refusals es ≡ 6)

counted :
    (at : Attempt) (es : List Event) (loading : Bool)
    → IsCounted at (answers es) (refusals es) (timers es)
    → loading ≡ is_under_way at
    → ((loading ≡ true) × (answers es + refusals es ≤ 5) × (timers es ≤ 5))
      ⊎ ((loading ≡ false)
          × (at ≡ Attempt.ended)
          × (answers es + refusals es ≤ 6)
          × (answers es + refusals es ≡ timers es + 1)
          × (answers es ≡ 0 → refusals es ≡ 6))
counted (Attempt.asking n) es loading (h, k) l = inl (l, omega arith, omega arith)
counted (Attempt.waiting n) es loading (h, k) l = inl (l, omega arith, omega arith)
counted Attempt.ended es loading (h, k, g) l = inr (l, refl, h, k, g)

-- Let answers, refusals and timers come only when they are awaited, and the user's choices at any
-- time. Whatever the hash and the answers are, the hook is loading until it has ended: while it is
-- loading, at most five requests have been answered or refused and at most five timers have come;
-- when it has ended, at most six requests have come back, one more than timers, and if none was
-- answered, all six were refused.
pub run-ends :
    (hash : Text) (es : List Event)
    → AreDue hash es mounted
    → IsLoading es (run hash es mounted) ⊎ HasEnded es (run hash es mounted)
unfolding mounted
run-ends hash es d =
    counted (run hash es mounted).attempt es (run hash es mounted).loading
      (run-IsCounted hash es mounted 0 0 0 _ _ _ (omega arith) (omega arith) (omega arith) d
        (refl, refl))
      (run-IsInStep hash es mounted refl)
