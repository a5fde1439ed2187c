-- ===== src/Sources/Malformed.antt =====
-- What a hash that does not parse does.
use wiremap.Base.{ℕ, zero, suc, ◌≡◌, refl, ◌∙◌, none, List, [], ◌∷◌, Text, All}
use wiremap.Route.{Outcome, parse_kube_hash}
use wiremap.Sources.{
  Attempt, Event, Source, Sources, all_sources, caught, initial_source, mounted, refuse, run, step,
  take_sources, time_out,
}

-- The user has chosen nothing.
abbrev pub IsAutomatic : Event → Type 0
IsAutomatic (Event.select id) = ⊥
IsAutomatic _ = Unit

initial_source-error :
    (hash : Text) (all : List Source)
    → parse_kube_hash hash ≡ Outcome.uri_error
    → initial_source hash all ≡ none
unfolding initial_source
initial_source-error hash all e = rw e refl

caught-selected_id : (n : ℕ) (s : Sources) → (caught n s).selected_id ≡ s.selected_id
caught-selected_id zero s = refl
caught-selected_id (suc n) s = refl

take_sources-selected_id :
    (a : Attempt) (hash : Text) (all : List Source) (s : Sources)
    → parse_kube_hash hash ≡ Outcome.uri_error
    → (take_sources a hash all s).selected_id ≡ s.selected_id
take_sources-selected_id (Attempt.asking n) hash all s e =
    rw (initial_source-error hash all e) (caught-selected_id n (record s { sources = all }))
take_sources-selected_id (Attempt.waiting n) hash all s e = refl
take_sources-selected_id Attempt.ended hash all s e = refl

refuse-selected_id : (a : Attempt) (s : Sources) → (refuse a s).selected_id ≡ s.selected_id
refuse-selected_id (Attempt.asking n) s = caught-selected_id n s
refuse-selected_id (Attempt.waiting n) s = refl
refuse-selected_id Attempt.ended s = refl

time_out-selected_id : (a : Attempt) (s : Sources) → (time_out a s).selected_id ≡ s.selected_id
time_out-selected_id (Attempt.waiting n) s = refl
time_out-selected_id (Attempt.asking n) s = refl
time_out-selected_id Attempt.ended s = refl

step-selected_id :
    (hash : Text) (e : Event) (s : Sources)
    → parse_kube_hash hash ≡ Outcome.uri_error
    → IsAutomatic e
    → (step hash e s).selected_id ≡ s.selected_id
unfolding step
step-selected_id hash (Event.answered hosts clusters) s e a =
    take_sources-selected_id s.attempt hash (all_sources hosts clusters) s e
step-selected_id hash Event.refused s e a = refuse-selected_id s.attempt s
step-selected_id hash Event.timed_out s e a = time_out-selected_id s.attempt s
step-selected_id hash (Event.select id) s e a = absurd a

run-selected_id :
    (hash : Text) (es : List Event) (s : Sources)
    → parse_kube_hash hash ≡ Outcome.uri_error
    → All IsAutomatic es
    → (run hash es s).selected_id ≡ s.selected_id
unfolding run
run-selected_id hash [] s e a = refl
run-selected_id hash (x ∷ xs) s e a =
    run-selected_id hash xs (step hash x s) e a.1 ∙ step-selected_id hash x s e a.0

-- If the hash is one whose parsing throws, then no source is ever selected by itself, whatever hosts
-- and clusters the server names.
pub run-unselected :
    (hash : Text) (es : List Event)
    → parse_kube_hash hash ≡ Outcome.uri_error
    → All IsAutomatic es
    → (run hash es mounted).selected_id ≡ []
unfolding mounted
run-unselected hash es e a = run-selected_id hash es mounted e a
