-- ===== src/Socket/Tests.antt =====
-- Runs of the socket, and the theorems at concrete states.
use wiremap.Base.{
  ◌+◌, ◌<◌, ◌≡◌, refl, true, false, some, none, List, [], ◌∷◌, codes, length, get_elem?, arith,
}
use wiremap.Socket.{
  ReadyState, Message, Event, fresh, step, run, on_close, reconnect_timeout, on_message,
}
use wiremap.Socket.Delay.{IsSound, run-IsSound}
use wiremap.Socket.Messages.{tally, held, emitted, held-run, Sends, step-Sends}
use wiremap.Socket.Stale.{close_of_stale}
use wiremap.Socket.Listeners.{Subscription, listen, calls, once, is_subscribed, calls-on_message}

abbrev watch : Message
watch = record { event = codes "topology:watch"; payload = codes "{}" }

-- A message is emitted while the first socket is closing, so that its close event comes late.
abbrev late_close : List Event
late_close =
    Event.connects true
    ∷ Event.opens 0
    ∷ Event.begins_closing 0
    ∷ Event.emits true watch
    ∷ Event.opens 1
    ∷ Event.retries 0
    ∷ []

late_close_lem : (run late_close fresh).states ≡ ReadyState.closing ∷ ReadyState.opened ∷ []
unfolding run
late_close_lem = refl

two_sockets :
    (run
      (Event.closes 0 ∷ Event.reconnects true ∷ Event.opens 2 ∷ [])
      (run late_close fresh)).states
    ≡ ReadyState.closed ∷ ReadyState.opened ∷ ReadyState.opened ∷ []
unfolding run
two_sockets = refl

backoff :
    (run (Event.connects false ∷ Event.reconnects false ∷ Event.reconnects false ∷ []) fresh).delay
    ≡ 27000
unfolding run
backoff = refl

run-IsSound_example : IsSound (run late_close fresh)
run-IsSound_example = run-IsSound late_close

held-run_example :
    held (λ _. true) (run late_close fresh)
    ≡ held (λ _. true) fresh + tally (λ _. true) (emitted late_close)
held-run_example = held-run (λ _. true) late_close fresh

step-Sends_example :
    Sends (run late_close fresh) (step (Event.emits true watch) (run late_close fresh)).sent
step-Sends_example = step-Sends (Event.emits true watch) (run late_close fresh)

close_of_stale_example :
    let s = run late_close fresh in
    ((on_close 0 s).ws ≡ none)
    × ((on_close 0 s).timer ≡ true)
    × ((reconnect_timeout true (on_close 0 s)).ws ≡ some (length s.states))
    × (1 < length s.states)
    × (get_elem? (reconnect_timeout true (on_close 0 s)).states 1 ≡ some ReadyState.opened)
unfolding run
close_of_stale_example = close_of_stale 0 1 (run late_close fresh) refl refl (λ e. omega arith) refl

calls-on_message_example :
    let ops = Subscription.subscribe watch.event 7 ∷ Subscription.subscribe watch.event 7 ∷ [] in
    calls 7 (on_message (listen ops []) (some watch)) ≡ once (is_subscribed watch.event 7 false ops)
calls-on_message_example =
    calls-on_message watch 7
      (Subscription.subscribe watch.event 7 ∷ Subscription.subscribe watch.event 7 ∷ [])
