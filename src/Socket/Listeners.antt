-- ===== src/Socket/Listeners.antt =====
-- Which handlers a message reaches.
use wiremap.Base.{
  ℕ, suc, ◌+◌, ◌≡◌, refl, Bool, true, false, ◌&&◌, some, List, [], ◌∷◌, ◌++◌, Text, arith,
  same_text_iff, if◌then◌else◌, ◌==◌, text_eq, nat_eq,
}
use wiremap.Socket.{
  Message, Listeners, has_handler, handlers_of, add_handler, delete_handler, on, off, on_message,
}

pub data Subscription : Type 0 where
  subscribe unsubscribe : Text → ℕ → Subscription

pub listen : List Subscription → Listeners → Listeners
listen [] ls = ls
listen (subscribe event h ∷ ops) ls = listen ops (on event h ls)
listen (unsubscribe event h ∷ ops) ls = listen ops (off event h ls)

-- How often a handler is called.
abbrev pub calls : ℕ → List ℕ → ℕ
calls h [] = 0
calls h (k ∷ ks) = let rest = calls h ks in if k == h then suc rest else rest

-- Whether the last call of `on` or `off` for the event and the handler was `on`.
abbrev pub is_subscribed : Text → ℕ → Bool → List Subscription → Bool
is_subscribed event h before [] = before
is_subscribed event h before (subscribe e k ∷ ops) =
    is_subscribed event h (if e == event && k == h then true else before) ops
is_subscribed event h before (unsubscribe e k ∷ ops) =
    is_subscribed event h (if e == event && k == h then false else before) ops

abbrev pub once : Bool → ℕ
once true = 1
once false = 0

handlers_of-on :
    (event e : Text) (h : ℕ) (ls : Listeners)
    → handlers_of event (on e h ls)
      ≡ (if e == event then add_handler h (handlers_of event ls) else handlers_of event ls)
unfolding handlers_of on
handlers_of-on event e h [] = ground arith
handlers_of-on event e h ((f, hs) ∷ ls) = ground (
  arith,
  handlers_of-on event e h ls,
  same_text_iff f e,
  same_text_iff f event,
  same_text_iff e event,
)

handlers_of-off :
    (event e : Text) (h : ℕ) (ls : Listeners)
    → handlers_of event (off e h ls)
      ≡ (if e == event then delete_handler h (handlers_of event ls) else handlers_of event ls)
unfolding handlers_of off
handlers_of-off event e h [] = ground arith
handlers_of-off event e h ((f, hs) ∷ ls) = ground (
  arith,
  handlers_of-off event e h ls,
  same_text_iff f e,
  same_text_iff f event,
  same_text_iff e event,
)

has_handler_iff : (h : ℕ) (hs : List ℕ) (b : Bool) → calls h hs ≡ once b → has_handler h hs ≡ b
has_handler_iff h [] b e = ground arith
has_handler_iff h (k ∷ ks) b e = ground (arith, has_handler_iff h ks false, has_handler_iff h ks b)

calls-append :
    (h k : ℕ) (hs : List ℕ) → calls h (hs ++ (k ∷ [])) ≡ calls h hs + (if k == h then 1 else 0)
calls-append h k [] = ground arith
calls-append h k (x ∷ hs) = ground (arith, calls-append h k hs)

calls-add :
    (h k : ℕ) (hs : List ℕ) (b : Bool)
    → calls h hs ≡ once b
    → calls h (add_handler k hs) ≡ once (if k == h then true else b)
calls-add h k hs b e = ground (arith, has_handler_iff h hs b, calls-append h k hs)

calls-delete :
    (h k : ℕ) (hs : List ℕ) → calls h (delete_handler k hs) ≡ (if k == h then 0 else calls h hs)
calls-delete h k [] = ground arith
calls-delete h k (x ∷ hs) = ground (arith, calls-delete h k hs)

calls-on :
    (event e : Text) (h k : ℕ) (b : Bool) (ls : Listeners)
    → calls h (handlers_of event ls) ≡ once b
    → calls h (handlers_of event (on e k ls)) ≡ once (if e == event && k == h then true else b)
calls-on event e h k b ls q =
    rw (handlers_of-on event e k ls) (ground (arith, calls-add h k (handlers_of event ls) b, q))

calls-off :
    (event e : Text) (h k : ℕ) (b : Bool) (ls : Listeners)
    → calls h (handlers_of event ls) ≡ once b
    → calls h (handlers_of event (off e k ls)) ≡ once (if e == event && k == h then false else b)
calls-off event e h k b ls q =
    rw (handlers_of-off event e k ls) (ground (arith, calls-delete h k (handlers_of event ls), q))

calls-listen_from :
    (event : Text) (h : ℕ) (ops : List Subscription) (b : Bool) (ls : Listeners)
    → calls h (handlers_of event ls) ≡ once b
    → calls h (handlers_of event (listen ops ls)) ≡ once (is_subscribed event h b ops)
unfolding listen
calls-listen_from event h [] b ls q = q
calls-listen_from event h (subscribe e k ∷ ops) b ls q =
    calls-listen_from event h ops _ (on e k ls) (calls-on event e h k b ls q)
calls-listen_from event h (unsubscribe e k ∷ ops) b ls q =
    calls-listen_from event h ops _ (off e k ls) (calls-off event e h k b ls q)

-- After any calls of `on` and `off`, a message calls a handler once if the last of these calls for
-- its event and the handler was `on`, and not at all otherwise.
pub calls-on_message :
    (m : Message) (h : ℕ) (ops : List Subscription)
    → calls h (on_message (listen ops []) (some m)) ≡ once (is_subscribed m.event h false ops)
unfolding on_message handlers_of
calls-on_message m h ops = calls-listen_from m.event h ops false [] refl
