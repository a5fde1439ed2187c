-- ===== src/Streams/Recent.antt =====
-- How much of a stream the hooks keep.
use wiremap.Base.{
  ℕ, zero, suc, ◌+◌, ◌-◌, ◌≤◌, ◌≡◌, refl, sym, ap, ◌∙◌, inl, inr, some, List, [], ◌∷◌, ◌++◌,
  append_assoc, append-nil, length, length-append, length-drop, drop, arith, Text, Bool-cases,
  if◌then◌else◌, text_eq, ◌==◌, subst,
}
use wiremap.KubeTypes.{PodTarget, pod_target_key}
use wiremap.Streams.{
  LogEntry, PodLogs, last_of, on_log, push_recent, start_logs, left, Emitted, error_entry,
  on_log_error,
}

module _ {ℓ} {A : Type ℓ} where
  abbrev nothing : List A
  nothing = []

  drop-nil : (m : ℕ) → drop m nothing ≡ []
  drop-nil zero = refl
  drop-nil (suc m) = refl

  drop-append : (m : ℕ) (xs ys : List A) → m ≤ length xs → drop m (xs ++ ys) ≡ drop m xs ++ ys
  drop-append zero xs ys h = refl
  drop-append (suc m) [] ys h = absurd (omega (arith, h))
  drop-append (suc m) (x ∷ xs) ys h = drop-append m xs ys (omega (arith, h))

  drop-drop : (m n : ℕ) (xs : List A) → drop m (drop n xs) ≡ drop (n + m) xs
  drop-drop m zero xs = ap (λ k. drop k xs) (omega arith)
  drop-drop m (suc n) [] = drop-nil m ∙ sym (drop-nil (suc n + m))
  drop-drop m (suc n) (y ∷ xs) =
      drop-drop m n xs ∙ ap (λ k. drop k (y ∷ xs)) {x = suc (n + m)} (omega arith)

  -- Pushing onto the last `n + 1` elements leaves the last `n + 1`.
  push_recent-last_of :
      (n : ℕ) (xs : List A) (x : A)
      → push_recent n (last_of (suc n) xs) x ≡ last_of (suc n) (xs ++ (x ∷ []))
  unfolding push_recent
  push_recent-last_of n xs x =
      ap (λ t. t ++ (x ∷ []))
        (drop-drop (length (last_of (suc n) xs) - n) (length xs - suc n) xs
          ∙ ap (λ k. drop k xs) (omega (arith, length-drop (length xs - suc n) xs)))
      ∙ sym (drop-append (length xs - n) xs (x ∷ []) (omega arith))
      ∙ ap (λ k. drop k (xs ++ (x ∷ []))) (omega (arith, length-append xs (x ∷ [])))

  pub length-last_of : (n : ℕ) (xs : List A) → length (last_of n xs) ≤ n
  length-last_of n xs = omega (arith, length-drop (length xs - n) xs)

-- What arrives on the socket for a stream of logs.
pub data Arrival : Type 0 where
  log : LogEntry → Arrival
  failure : (key message : Text) → Arrival

abbrev pub arrive : Arrival → PodLogs → PodLogs
arrive (Arrival.log entry) s = on_log entry s
arrive (Arrival.failure key message) s = on_log_error key message s

abbrev pub arrive_all : List Arrival → PodLogs → PodLogs
arrive_all [] s = s
arrive_all (a ∷ as_) s = arrive_all as_ (arrive a s)

-- The line that an arrival shows, if it is for the target.
abbrev pub line : Arrival → LogEntry
line (Arrival.log entry) = entry
line (Arrival.failure key message) = error_entry key message

abbrev pub lines_of : PodTarget → List Arrival → List LogEntry
lines_of t [] = []
lines_of t (a ∷ as_) =
    let rest = lines_of t as_ in
    if (line a).container_id == pod_target_key t then line a ∷ rest else rest

abbrev following : PodTarget → List Emitted → List LogEntry → PodLogs
following t emitted logs = record { target = some t; logs = logs; emitted = emitted }

module _ (t : PodTarget) (emitted : List Emitted) where
  arrive-line :
      (a : Arrival) (seen : List LogEntry)
      → arrive a (following t emitted (last_of 1000 seen)) ≡ (
          if (line a).container_id == pod_target_key t
          then following t emitted (last_of 1000 (seen ++ (line a ∷ [])))
          else following t emitted (last_of 1000 seen))
  unfolding on_log on_log_error
  arrive-line (Arrival.log entry) seen =
      elim (Bool-cases (entry.container_id == pod_target_key t)) [
        | inl e ↦ rw e (ap (following t emitted) (push_recent-last_of 999 seen entry))
        | inr e ↦ rw e refl
      ]
  arrive-line (Arrival.failure key message) seen = elim (Bool-cases (key == pod_target_key t)) [
    | inl e ↦
        rw e (ap (following t emitted) (push_recent-last_of 999 seen (error_entry key message)))
    | inr e ↦ rw e refl
  ]

  arrive_all-lines :
      (arrivals : List Arrival) (seen : List LogEntry)
      → (arrive_all arrivals (following t emitted (last_of 1000 seen))).logs
        ≡ last_of 1000 (seen ++ lines_of t arrivals)
  arrive_all-lines [] seen = ap (last_of 1000) (sym (append-nil seen))
  arrive_all-lines (a ∷ as_) seen =
      ap (λ s. (arrive_all as_ s).logs) (arrive-line a seen)
      ∙ elim (Bool-cases ((line a).container_id == pod_target_key t)) [
        | inl e ↦ rw e (
            arrive_all-lines as_ (seen ++ (line a ∷ []))
            ∙ ap (last_of 1000) (append_assoc seen (line a ∷ []) (lines_of t as_)))
        | inr e ↦ rw e (arrive_all-lines as_ seen)
      ]

-- After a pod's container was chosen, the lines that are shown are exactly the last thousand of
-- those that have arrived for it, errors of the stream among them, in their order.
pub start_logs-last_of :
    (t : PodTarget) (s : PodLogs) (arrivals : List Arrival)
    → ((arrive_all arrivals (start_logs (some t) s)).logs ≡ last_of 1000 (lines_of t arrivals))
      × (length (arrive_all arrivals (start_logs (some t) s)).logs ≤ 1000)
unfolding start_logs
start_logs-last_of t s arrivals =
    let shown =
      arrive_all-lines t (s.emitted ++ (left s.target ++ (Emitted.subscribe t ∷ []))) arrivals [] in
    (shown, subst (λ xs. length xs ≤ 1000) (sym shown) (length-last_of 1000 (lines_of t arrivals)))
