-- ===== src/Socket/Messages.antt =====
-- Each message is sent once, and only on an open socket.
use wiremap.Base.{
  ℕ, zero, suc, ◌+◌, ◌≡◌, refl, ap, inl, inr, Bool, true, Option, none, some, List, [], ◌∷◌, ◌++◌,
  get_elem?, arith, Option-cases, if_elim, if◌then◌else◌,
}
use wiremap.Socket.{
  WireSocket, ReadyState, Message, Event, state_of, is_open, send_on, remove_at, connect,
  reconnect_timeout, on_open, start_closing, on_close, emit, retry_timeout, disconnect, step, run,
}

-- How many messages pass a test.
pub tally : (Message → Bool) → List Message → ℕ
tally p [] = 0
tally p (m ∷ ms) = let rest = tally p ms in if p m then suc rest else rest

abbrev pub bodies : List (ℕ × Message) → List Message
bodies [] = []
bodies ((i, m) ∷ ms) = m ∷ bodies ms

-- The messages that the program has handed to `emit`.
abbrev pub emitted : List Event → List Message
emitted [] = []
emitted (Event.emits made m ∷ es) = m ∷ emitted es
emitted (_ ∷ es) = emitted es

module _ (p : Message → Bool) where
  tally-append : (xs ys : List Message) → tally p (xs ++ ys) ≡ tally p xs + tally p ys
  unfolding tally
  tally-append [] ys = omega arith
  tally-append (x ∷ xs) ys = ground (arith, tally-append xs ys)

  tally-cons : (m : Message) (ms : List Message) → tally p (m ∷ ms) ≡ tally p (m ∷ []) + tally p ms
  unfolding tally
  tally-cons m ms = ground arith

  tally-remove_at :
      (xs : List Message) (n : ℕ) (m : Message)
      → get_elem? xs n ≡ some m
      → tally p (remove_at xs n) + tally p (m ∷ []) ≡ tally p xs
  unfolding tally
  tally-remove_at [] n m h = cc
  tally-remove_at (x ∷ xs) zero m h = ground arith
  tally-remove_at (x ∷ xs) (suc n) m h = ground (arith, tally-remove_at xs n m h)

  bodies-append :
      (xs : List (ℕ × Message)) (i : ℕ) (m : Message)
      → bodies (xs ++ ((i, m) ∷ [])) ≡ bodies xs ++ (m ∷ [])
  bodies-append [] i m = refl
  bodies-append ((j, k) ∷ xs) i m = ap (λ (t : List Message). k ∷ t) (bodies-append xs i m)

  -- What was sent and what waits.
  pub held : WireSocket → ℕ
  held s = tally p (bodies s.sent) + tally p s.retries

  held-connect : (made : Bool) (s : WireSocket) → held (connect made s) ≡ held s
  unfolding held connect
  held-connect made s = ground arith

  held-timeout : (made : Bool) (s : WireSocket) → held (reconnect_timeout made s) ≡ held s
  unfolding held reconnect_timeout
  held-timeout made s = ground arith

  held-close : (i : ℕ) (s : WireSocket) → held (on_close i s) ≡ held s
  unfolding held on_close
  held-close i s = ground arith

  held-waiting :
      (m : Message) (s : WireSocket)
      → held (record s { retries = s.retries ++ (m ∷ []) }) ≡ held s + tally p (m ∷ [])
  unfolding held
  held-waiting m s = omega (arith, tally-append s.retries (m ∷ []))

  tally-sent :
      (i : ℕ) (m : Message) (xs : List (ℕ × Message))
      → tally p (bodies (xs ++ ((i, m) ∷ []))) ≡ tally p (bodies xs) + tally p (m ∷ [])
  tally-sent i m xs = rw (bodies-append xs i m) (tally-append (bodies xs) (m ∷ []))

  tally-send_on :
      (ws : Option ℕ) (states : List ReadyState) (m : Message) (xs : List (ℕ × Message))
      → is_open (state_of ws states) ≡ true
      → tally p (bodies (send_on ws m xs)) ≡ tally p (bodies xs) + tally p (m ∷ [])
  tally-send_on none states m xs e = cc
  tally-send_on (some i) states m xs e = tally-sent i m xs

  held-sent :
      (m : Message) (s : WireSocket)
      → is_open (state_of s.ws s.states) ≡ true
      → held (record s { sent = send_on s.ws m s.sent }) ≡ held s + tally p (m ∷ [])
  unfolding held
  held-sent m s e = omega (arith, tally-send_on s.ws s.states m s.sent e)

  held-resent :
      (n : ℕ) (m : Message) (s : WireSocket)
      → get_elem? s.retries n ≡ some m
      → is_open (state_of s.ws s.states) ≡ true
      → held (record s { sent = send_on s.ws m s.sent; retries = remove_at s.retries n }) ≡ held s
  unfolding held
  held-resent n m s g e =
      omega (arith, tally-send_on s.ws s.states m s.sent e, tally-remove_at s.retries n m g)

  held-emit :
      (made : Bool) (m : Message) (s : WireSocket)
      → held (emit made m s) ≡ held s + tally p (m ∷ [])
  unfolding emit
  held-emit made m s =
      if_elim (λ t. held t ≡ held s + tally p (m ∷ [])) (is_open (state_of s.ws s.states)) _ _
        (held-sent m s) (λ e. omega (arith, held-waiting m (connect made s), held-connect made s))

  held-retry : (n : ℕ) (s : WireSocket) → held (retry_timeout n s) ≡ held s
  unfolding retry_timeout
  held-retry n s = elim (Option-cases (get_elem? s.retries n)) [
    | inl gone ↦ rw gone
    | inr (m, g) ↦ rw g (
        if_elim (λ t. held t ≡ held s) (is_open (state_of s.ws s.states)) _ _ (held-resent n m s g)
          (λ _. refl))
  ]

  quiet : {a b : ℕ} → a ≡ b → a ≡ b + tally p []
  unfolding tally
  quiet h = omega arith

  held-open : (i : ℕ) (s : WireSocket) → held (on_open i s) ≡ held s
  unfolding held on_open
  held-open i s = refl

  held-closing : (i : ℕ) (s : WireSocket) → held (start_closing i s) ≡ held s
  unfolding held start_closing
  held-closing i s = refl

  held-disconnect : (s : WireSocket) → held (disconnect s) ≡ held s
  unfolding held disconnect
  held-disconnect s = refl

  held-step : (e : Event) (s : WireSocket) → held (step e s) ≡ held s + tally p (emitted (e ∷ []))
  unfolding step
  held-step (Event.connects made) s = quiet (held-connect made s)
  held-step (Event.reconnects made) s = quiet (held-timeout made s)
  held-step (Event.opens i) s = quiet (held-open i s)
  held-step (Event.begins_closing i) s = quiet (held-closing i s)
  held-step (Event.closes i) s = quiet (held-close i s)
  held-step (Event.emits made m) s = held-emit made m s
  held-step (Event.retries n) s = quiet (held-retry n s)
  held-step Event.disconnects s = quiet (held-disconnect s)

  tally-emitted :
      (e : Event) (es : List Event)
      → tally p (emitted (e ∷ es)) ≡ tally p (emitted (e ∷ [])) + tally p (emitted es)
  unfolding tally
  tally-emitted (Event.emits made m) es = ground arith
  tally-emitted (Event.connects made) es = omega arith
  tally-emitted _ es = omega arith

  -- After any events, the messages that were sent and those that still wait are together exactly
  -- the ones that were there before and the ones emitted since: of the messages that pass any test
  -- there are as many, so none is lost and none is sent twice.
  pub held-run :
      (es : List Event) (s : WireSocket) → held (run es s) ≡ held s + tally p (emitted es)
  unfolding run
  held-run [] s = quiet refl
  held-run (e ∷ es) s = omega (arith, held-run es (step e s), held-step e s, tally-emitted e es)

-- What a step adds to the sent messages: nothing, or one message on the current socket, which is
-- open.
pub data Sends (s : WireSocket) (sent : List (ℕ × Message)) : Type 0 where
  nothing : sent ≡ s.sent → Sends s sent
  one :
      (i : ℕ) (m : Message)
      → s.ws ≡ some i
      → get_elem? s.states i ≡ some ReadyState.opened
      → sent ≡ s.sent ++ ((i, m) ∷ [])
      → Sends s sent

sent-connect : (made : Bool) (s : WireSocket) → (connect made s).sent ≡ s.sent
unfolding connect
sent-connect made s = ground arith

sent-timeout : (made : Bool) (s : WireSocket) → (reconnect_timeout made s).sent ≡ s.sent
unfolding reconnect_timeout
sent-timeout made s = ground arith

sent-close : (i : ℕ) (s : WireSocket) → (on_close i s).sent ≡ s.sent
unfolding on_close
sent-close i s = ground arith

is_open_lem : (o : Option ReadyState) → is_open o ≡ true → o ≡ some ReadyState.opened
is_open_lem none e = cc
is_open_lem (some ReadyState.opened) e = refl
is_open_lem (some ReadyState.connecting) e = cc
is_open_lem (some ReadyState.closing) e = cc
is_open_lem (some ReadyState.closed) e = cc

Sends-send_on :
    (s : WireSocket) (ws : Option ℕ) (m : Message)
    → s.ws ≡ ws
    → is_open (state_of ws s.states) ≡ true
    → Sends s (send_on ws m s.sent)
Sends-send_on s none m h e = absurd (cc e)
Sends-send_on s (some i) m h e = Sends.one i m h (is_open_lem _ e) refl

Sends-emit : (made : Bool) (m : Message) (s : WireSocket) → Sends s (emit made m s).sent
unfolding emit
Sends-emit made m s =
    if_elim (λ (t : WireSocket). Sends s t.sent) (is_open (state_of s.ws s.states)) _ _
      (Sends-send_on s s.ws m refl) (λ _. Sends.nothing (sent-connect made s))

Sends-retry : (n : ℕ) (s : WireSocket) → Sends s (retry_timeout n s).sent
unfolding retry_timeout
Sends-retry n s = elim (Option-cases (get_elem? s.retries n)) [
  | inl gone ↦ rw gone (Sends.nothing refl)
  | inr (m, g) ↦ rw g (
      if_elim (λ (t : WireSocket). Sends s t.sent) (is_open (state_of s.ws s.states)) _ _
        (Sends-send_on s s.ws m refl) (λ _. Sends.nothing refl))
]

-- Whatever happens, a message goes out only on the current socket, and only while it is open.
pub step-Sends : (e : Event) (s : WireSocket) → Sends s (step e s).sent
unfolding step
step-Sends (Event.connects made) s = Sends.nothing (sent-connect made s)
step-Sends (Event.reconnects made) s = Sends.nothing (sent-timeout made s)
step-Sends (Event.opens i) s = unfold on_open in (Sends.nothing refl)
step-Sends (Event.begins_closing i) s = unfold start_closing in (Sends.nothing refl)
step-Sends (Event.closes i) s = Sends.nothing (sent-close i s)
step-Sends (Event.emits made m) s = Sends-emit made m s
step-Sends (Event.retries n) s = Sends-retry n s
step-Sends Event.disconnects s = unfold disconnect in (Sends.nothing refl)
