-- ===== src/Socket.antt =====
-- client/src/services/socket.ts. The browser's sockets are numbered in the order in which they are
-- made; `states` holds the readyState of each. What the browser does is an argument of an
-- operation or an event of its own. A delay is counted in quarters of a millisecond, which is
-- exact for every delay that occurs.
pub mod Delay
pub mod Messages
pub mod Stale
pub mod Listeners
mod Tests
use wiremap.Base.{
  ℕ, zero, suc, ◌+◌, ◌*◌, ◌/◌, min, Bool, true, false, not, ◌||◌, Option, none, some, List, [], ◌∷◌,
  ◌++◌, Text, length, get_elem?, find, ltb, ◌==◌, nat_eq, text_eq, if◌then◌else◌,
}

pub data ReadyState : Type 0 where
  connecting opened closing closed : ReadyState

-- `data` as its JSON text.
pub record Message : Type 0 where
  pub event : Text
  pub payload : Text

pub record WireSocket : Type 0 where
  pub ws : Option ℕ
  pub states : List ReadyState
  -- whether a reconnect timer is set
  pub timer : Bool
  pub delay : ℕ
  pub intentional_close : Bool
  -- the messages whose `retry` is waiting for its next timeout
  pub retries : List Message
  -- what was handed to a socket's `send`, with the socket
  pub sent : List (ℕ × Message)

abbrev pub initial_delay : ℕ
initial_delay = 12000

abbrev pub max_delay : ℕ
max_delay = 120000

abbrev pub fresh : WireSocket
fresh = record {
  ws = none;
  states = [];
  timer = false;
  delay = initial_delay;
  intentional_close = false;
  retries = [];
  sent = [];
}

abbrev pub set_state : List ReadyState → ℕ → ReadyState → List ReadyState
set_state [] i r = []
set_state (x ∷ xs) zero r = r ∷ xs
set_state (x ∷ xs) (suc i) r = x ∷ set_state xs i r

-- `this.ws?.readyState`.
abbrev pub state_of : Option ℕ → List ReadyState → Option ReadyState
state_of none states = none
state_of (some i) states = get_elem? states i

abbrev pub is_open : Option ReadyState → Bool
is_open (some ReadyState.opened) = true
is_open _ = false

abbrev pub is_live : Option ReadyState → Bool
is_live (some ReadyState.opened) = true
is_live (some ReadyState.connecting) = true
is_live _ = false

unfoldable pub schedule_reconnect : WireSocket → WireSocket
schedule_reconnect s = if s.timer then s else record s { timer = true }

-- `made`: whether `new WebSocket(url)` returns; otherwise it throws.
unfoldable pub connect : Bool → WireSocket → WireSocket
unfolding schedule_reconnect
connect made s =
    if is_live (state_of s.ws s.states)
    then s
    else (let s' = record s { intentional_close = false } in
        if made
        then record s' {
          ws = some (length s.states);
          states = s.states ++ (ReadyState.connecting ∷ []);
        }
        else schedule_reconnect s')

-- The callback of the reconnect timer.
unfoldable pub reconnect_timeout : Bool → WireSocket → WireSocket
unfolding connect
reconnect_timeout made s =
    if s.timer
    then connect made (record s { timer = false; delay = min (s.delay * 3 / 2) max_delay })
    else s

-- `onopen` of socket `i`, which the browser has just opened.
unfoldable pub on_open : ℕ → WireSocket → WireSocket
on_open i s = record s { states = set_state s.states i ReadyState.opened; delay = initial_delay }

-- The browser begins the closing handshake of socket `i`.
unfoldable pub start_closing : ℕ → WireSocket → WireSocket
start_closing i s = record s { states = set_state s.states i ReadyState.closing }

-- `onclose` of socket `i`.
unfoldable pub on_close : ℕ → WireSocket → WireSocket
unfolding schedule_reconnect
on_close i s =
    let s' = record s { ws = none; states = set_state s.states i ReadyState.closed } in
    if not s.intentional_close then schedule_reconnect s' else s'

abbrev send_on : Option ℕ → Message → List (ℕ × Message) → List (ℕ × Message)
send_on none m sent = sent
send_on (some i) m sent = sent ++ ((i, m) ∷ [])

unfoldable pub emit : Bool → Message → WireSocket → WireSocket
unfolding connect
emit made m s =
    if is_open (state_of s.ws s.states)
    then record s { sent = send_on s.ws m s.sent }
    else (let s' = connect made s in record s' { retries = s'.retries ++ (m ∷ []) })

-- One message less: the first retry that is `n` places from the head.
abbrev pub remove_at {ℓ} : {A : Type ℓ} → List A → ℕ → List A
remove_at [] n = []
remove_at (x ∷ xs) zero = xs
remove_at (x ∷ xs) (suc n) = x ∷ remove_at xs n

abbrev resend : Option Message → ℕ → WireSocket → WireSocket
resend none n s = s
resend (some m) n s =
    if is_open (state_of s.ws s.states)
    then record s { sent = send_on s.ws m s.sent; retries = remove_at s.retries n }
    else s

-- The timeout of the `n`th waiting `retry`: it sends, or waits again.
unfoldable pub retry_timeout : ℕ → WireSocket → WireSocket
retry_timeout n s = resend (get_elem? s.retries n) n s

abbrev close_current : Option ℕ → List ReadyState → List ReadyState
close_current none states = states
close_current (some i) states = set_state states i ReadyState.closing

unfoldable pub disconnect : WireSocket → WireSocket
disconnect s = record s {
  intentional_close = true;
  timer = false;
  states = close_current s.ws s.states;
  ws = none;
}

-- `listeners`: the handlers of each event, in the order in which they were added.
abbrev pub Listeners : Type 0
Listeners = List (Text × List ℕ)

abbrev pub has_handler : ℕ → List ℕ → Bool
has_handler h [] = false
has_handler h (k ∷ ks) = k == h || has_handler h ks

unfoldable pub handlers_of : Text → Listeners → List ℕ
handlers_of event [] = []
handlers_of event ((e, hs) ∷ ls) = if e == event then hs else handlers_of event ls

-- `Set.add` and `Set.delete`.
abbrev pub add_handler : ℕ → List ℕ → List ℕ
add_handler h hs = if has_handler h hs then hs else hs ++ (h ∷ [])

abbrev pub delete_handler : ℕ → List ℕ → List ℕ
delete_handler h [] = []
delete_handler h (k ∷ ks) = let rest = delete_handler h ks in if k == h then rest else k ∷ rest

unfoldable pub on : Text → ℕ → Listeners → Listeners
on event h [] = (event, h ∷ []) ∷ []
on event h ((e, hs) ∷ ls) =
    if e == event then (e, add_handler h hs) ∷ ls else (e, hs) ∷ on event h ls

unfoldable pub off : Text → ℕ → Listeners → Listeners
off event h [] = []
off event h ((e, hs) ∷ ls) =
    if e == event then (e, delete_handler h hs) ∷ ls else (e, hs) ∷ off event h ls

-- `onmessage`: the handlers that are called with the message's data, in order. `none` is a frame
-- that is no JSON, which is ignored.
unfoldable pub on_message : Listeners → Option Message → List ℕ
unfolding handlers_of
on_message ls none = []
on_message ls (some m) = handlers_of m.event ls

-- What can happen to a socket.
pub data Event : Type 0 where
  connects : (made : Bool) → Event
  reconnects : (made : Bool) → Event
  opens : ℕ → Event
  begins_closing : ℕ → Event
  closes : ℕ → Event
  emits : (made : Bool) → Message → Event
  retries : ℕ → Event
  disconnects : Event

unfoldable pub step : Event → WireSocket → WireSocket
unfolding connect reconnect_timeout on_open start_closing on_close emit retry_timeout disconnect
step (Event.connects made) s = connect made s
step (Event.reconnects made) s = reconnect_timeout made s
step (Event.opens i) s = on_open i s
step (Event.begins_closing i) s = start_closing i s
step (Event.closes i) s = on_close i s
step (Event.emits made m) s = emit made m s
step (Event.retries n) s = retry_timeout n s
step Event.disconnects s = disconnect s

unfoldable pub run : List Event → WireSocket → WireSocket
unfolding step
run [] s = s
run (e ∷ es) s = run es (step e s)
