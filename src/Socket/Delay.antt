-- ===== src/Socket/Delay.antt =====
-- The reconnect timer and its delay.
use wiremap.Base.{
  ℕ, ◌*◌, ◌/◌, min, ◌≡◌, ◌⊎◌, Bool, true, false, none, List, [], ◌∷◌, arith, if_elim,
}
use wiremap.Socket.{
  WireSocket, ReadyState, Message, Event, fresh, max_delay, set_state, connect, reconnect_timeout,
  on_open, start_closing, on_close, emit, retry_timeout, disconnect, step, run,
}

-- 3 s, grown by half until it would pass 30 s.
abbrev pub IsDelay : ℕ → Type 0
IsDelay d =
    (d ≡ 12000) ⊎ (d ≡ 18000) ⊎ (d ≡ 27000) ⊎ (d ≡ 40500) ⊎ (d ≡ 60750) ⊎ (d ≡ 91125) ⊎ (d ≡ 120000)

pub record IsSound (s : WireSocket) : Type 0 where
  pub delay_ok : IsDelay s.delay
  -- a timer is set only while the socket is meant to be connected
  pub meant : s.timer ≡ true → s.intentional_close ≡ false
  -- without a socket a reconnect is under way, unless it was disconnected or never connected
  pub retried : s.ws ≡ none → (s.timer ≡ true) ⊎ (s.intentional_close ≡ true) ⊎ (s.states ≡ [])

IsDelay-grown : (d : ℕ) → IsDelay d → IsDelay (min (d * 3 / 2) max_delay)
IsDelay-grown d h = omega arith

IsSound-connect :
    (made : Bool) (s : WireSocket)
    → IsDelay s.delay
    → (s.timer ≡ true → s.intentional_close ≡ false)
    → IsSound (connect made s)
unfolding connect
IsSound-connect made s h k = ground arith

-- The state in which the reconnect timer's callback connects.
abbrev waited : WireSocket → WireSocket
waited s = record s { timer = false; delay = min (s.delay * 3 / 2) max_delay }

set_state-nil : (xs : List ReadyState) (i : ℕ) (r : ReadyState) → xs ≡ [] → set_state xs i r ≡ []
set_state-nil xs i r e = rw e

IsSound-timeout : (made : Bool) (s : WireSocket) → IsSound s → IsSound (reconnect_timeout made s)
unfolding reconnect_timeout
IsSound-timeout made s h =
    if_elim IsSound s.timer _ _
      (λ set. IsSound-connect made (waited s) (IsDelay-grown s.delay h.delay_ok) (λ e. cc))
      (λ none_set. h)

IsSound-open : (i : ℕ) (s : WireSocket) → IsSound s → IsSound (on_open i s)
unfolding on_open
IsSound-open i s h = ground (arith, set_state-nil s.states i ReadyState.opened)

IsSound-closing : (i : ℕ) (s : WireSocket) → IsSound s → IsSound (start_closing i s)
unfolding start_closing
IsSound-closing i s h = ground (arith, set_state-nil s.states i ReadyState.closing)

IsSound-close : (i : ℕ) (s : WireSocket) → IsSound s → IsSound (on_close i s)
unfolding on_close
IsSound-close i s h = ground arith

IsSound-emit : (made : Bool) (m : Message) (s : WireSocket) → IsSound s → IsSound (emit made m s)
unfolding emit
IsSound-emit made m s h = ground (arith, IsSound-connect made s)

IsSound-retry : (n : ℕ) (s : WireSocket) → IsSound s → IsSound (retry_timeout n s)
unfolding retry_timeout
IsSound-retry n s h = ground arith

IsSound-disconnect : (s : WireSocket) → IsSound s → IsSound (disconnect s)
unfolding disconnect
IsSound-disconnect s h = ground arith

IsSound-step : (e : Event) (s : WireSocket) → IsSound s → IsSound (step e s)
unfolding step
IsSound-step (Event.connects made) s h = IsSound-connect made s h.delay_ok h.meant
IsSound-step (Event.reconnects made) s h = IsSound-timeout made s h
IsSound-step (Event.opens i) s h = IsSound-open i s h
IsSound-step (Event.begins_closing i) s h = IsSound-closing i s h
IsSound-step (Event.closes i) s h = IsSound-close i s h
IsSound-step (Event.emits made m) s h = IsSound-emit made m s h
IsSound-step (Event.retries n) s h = IsSound-retry n s h
IsSound-step Event.disconnects s h = IsSound-disconnect s h

IsSound-run_from : (es : List Event) (s : WireSocket) → IsSound s → IsSound (run es s)
unfolding run
IsSound-run_from [] s h = h
IsSound-run_from (e ∷ es) s h = IsSound-run_from es (step e s) (IsSound-step e s h)

fresh-IsSound : IsSound fresh
fresh-IsSound = ground arith

-- After any events in any order, the delay is one of the seven from 3 s to 30 s, a reconnect timer
-- is set only if the socket is not meant to be closed, and a socket that was lost has a reconnect
-- timer, unless it was disconnected on purpose or no socket was ever made.
pub run-IsSound : (es : List Event) → IsSound (run es fresh)
run-IsSound es = IsSound-run_from es fresh fresh-IsSound
