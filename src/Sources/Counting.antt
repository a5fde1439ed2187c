-- ===== src/Sources/Counting.antt =====
-- How many answers, refusals and timers come, if each comes when it is awaited.
use wiremap.Base.{
  ℕ, zero, suc, ◌+◌, ◌≤◌, ◌≡◌, subst, Option, none, some, List, [], ◌∷◌, Text, arith,
}
use wiremap.KubeTypes.{KubeCluster}
use wiremap.DockerTypes.{HostInfo}
use wiremap.Sources.{
  Attempt, Event, Source, Sources, all_sources, caught, initial_source, refuse, run, selected, step,
  take_sources, time_out,
}

-- What the present attempt waits for: the end of a request or the timer. The user may choose at any
-- time.
abbrev pub IsDue : Event → Attempt → Type 0
IsDue (Event.select id) a = Unit
IsDue (Event.answered hosts clusters) (Attempt.asking n) = Unit
IsDue Event.refused (Attempt.asking n) = Unit
IsDue Event.timed_out (Attempt.waiting n) = Unit
IsDue _ _ = ⊥

-- Each event comes when it is due.
abbrev pub AreDue : Text → List Event → Sources → Type 0
AreDue hash [] s = Unit
AreDue hash (e ∷ es) s = IsDue e s.attempt × AreDue hash es (step hash e s)

abbrev answer_count : Event → ℕ
answer_count (Event.answered hosts clusters) = 1
answer_count _ = 0

abbrev refusal_count : Event → ℕ
refusal_count Event.refused = 1
refusal_count _ = 0

abbrev timer_count : Event → ℕ
timer_count Event.timed_out = 1
timer_count _ = 0

abbrev pub answers : List Event → ℕ
answers [] = 0
answers (e ∷ es) = answer_count e + answers es

abbrev pub refusals : List Event → ℕ
refusals [] = 0
refusals (e ∷ es) = refusal_count e + refusals es

abbrev pub timers : List Event → ℕ
timers [] = 0
timers (e ∷ es) = timer_count e + timers es

-- How many answers, refusals and timers have come by an attempt.
abbrev pub IsCounted : Attempt → ℕ → ℕ → ℕ → Type 0
IsCounted (Attempt.asking n) a r t = (a + r + n ≡ 5) × (t + n ≡ 5)
IsCounted (Attempt.waiting n) a r t = (a + r + n ≡ 5) × (t + n + 1 ≡ 5)
IsCounted Attempt.ended a r t = (a + r ≤ 6) × (a + r ≡ t + 1) × (a ≡ 0 → r ≡ 6)

caught-IsCounted :
    (n : ℕ) (s : Sources) (a r t a' r' : ℕ)
    → a + r + n ≡ 5
    → t + n ≡ 5
    → a' + r' ≡ a + r + 1
    → IsCounted (caught n s).attempt a' r' t
caught-IsCounted zero s a r t a' r' h k e = (omega arith, omega arith, λ z. omega arith)
caught-IsCounted (suc n) s a r t a' r' h k e = (omega arith, omega arith)

take_sources-IsCounted :
    (at : Attempt) (hash : Text) (all : List Source) (s : Sources) (hosts : List HostInfo)
    (clusters : List KubeCluster) (a r t : ℕ)
    → IsDue (Event.answered hosts clusters) at
    → IsCounted at a r t
    → IsCounted (take_sources at hash all s).attempt (a + 1) r t
take_sources-IsCounted (Attempt.asking n) hash all s hosts clusters a r t d (h, k) =
    selected-IsCounted (initial_source hash all)
  where
    selected-IsCounted :
        (o : Option Text)
        → IsCounted (selected n o (record s { sources = all })).attempt (a + 1) r t
    selected-IsCounted none =
        caught-IsCounted n (record s { sources = all }) a r t (a + 1) r h k (omega arith)
    selected-IsCounted (some id) = (omega arith, omega arith, λ z. absurd (omega arith))
take_sources-IsCounted (Attempt.waiting n) hash all s hosts clusters a r t d c = absurd d
take_sources-IsCounted Attempt.ended hash all s hosts clusters a r t d c = absurd d

refuse-IsCounted :
    (at : Attempt) (s : Sources) (a r t : ℕ)
    → IsDue Event.refused at
    → IsCounted at a r t
    → IsCounted (refuse at s).attempt a (r + 1) t
refuse-IsCounted (Attempt.asking n) s a r t d (h, k) =
    caught-IsCounted n s a r t a (r + 1) h k (omega arith)
refuse-IsCounted (Attempt.waiting n) s a r t d c = absurd d
refuse-IsCounted Attempt.ended s a r t d c = absurd d

time_out-IsCounted :
    (at : Attempt) (s : Sources) (a r t : ℕ)
    → IsDue Event.timed_out at
    → IsCounted at a r t
    → IsCounted (time_out at s).attempt a r (t + 1)
time_out-IsCounted (Attempt.waiting n) s a r t d (h, k) = (h, omega arith)
time_out-IsCounted (Attempt.asking n) s a r t d c = absurd d
time_out-IsCounted Attempt.ended s a r t d c = absurd d

recount :
    (at : Attempt) (a r t a' r' t' : ℕ)
    → a ≡ a'
    → r ≡ r'
    → t ≡ t'
    → IsCounted at a r t
    → IsCounted at a' r' t'
recount at a r t a' r' t' e f g c =
    subst (λ n. IsCounted at n r' t') e
      (subst (λ n. IsCounted at a n t') f (subst (λ n. IsCounted at a r n) g c))

-- Counting on from `a`, `r` and `t`.
pub run-IsCounted :
    (hash : Text) (es : List Event) (s : Sources) (a r t a' r' t' : ℕ)
    → a + answers es ≡ a'
    → r + refusals es ≡ r'
    → t + timers es ≡ t'
    → AreDue hash es s
    → IsCounted s.attempt a r t
    → IsCounted (run hash es s).attempt a' r' t'
unfolding run step
run-IsCounted hash [] s a r t a' r' t' e f g d c =
    recount s.attempt a r t a' r' t' (omega arith) (omega arith) (omega arith) c
run-IsCounted hash (Event.answered hosts clusters ∷ es) s a r t a' r' t' e f g (d, ds) c =
    run-IsCounted hash es _ (a + 1) r t a' r' t' (omega arith) (omega arith) (omega arith) ds (
      take_sources-IsCounted s.attempt hash (all_sources hosts clusters) s hosts clusters a r t d c)
run-IsCounted hash (Event.refused ∷ es) s a r t a' r' t' e f g (d, ds) c =
    run-IsCounted hash es _ a (r + 1) t a' r' t' (omega arith) (omega arith) (omega arith) ds
      (refuse-IsCounted s.attempt s a r t d c)
run-IsCounted hash (Event.timed_out ∷ es) s a r t a' r' t' e f g (d, ds) c =
    run-IsCounted hash es _ a r (t + 1) a' r' t' (omega arith) (omega arith) (omega arith) ds
      (time_out-IsCounted s.attempt s a r t d c)
run-IsCounted hash (Event.select id ∷ es) s a r t a' r' t' e f g (d, ds) c =
    run-IsCounted hash es (record s { selected_id = id }) a r t a' r' t' (omega arith) (omega arith)
      (omega arith) ds c
