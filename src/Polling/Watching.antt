-- ===== src/Polling/Watching.antt =====
-- The watch of client/src/hooks/useKubeTopology.ts: the second effect, which tells the server which
-- namespace's changes to announce. The messages it emits are part of the state; Socket says what
-- becomes of a message.
use wiremap.Base.{
  arith, ◌≡◌, refl, ap, ◌∙◌, Bool, false, ◌&&◌, Option, none, some, List, [], ◌∷◌, ◌++◌, Text,
  codes, eq_self, same_text, if◌then◌else◌, ◌==◌, text_eq,
}
use wiremap.KubeTypes.{KubeLevel, KubeView}
use wiremap.Route.{or_else}
use wiremap.Polling.{watch_namespace}

pub record Scope : Type 0 where
  pub cluster : Text
  pub namespace : Text

pub data Message : Type 0 where
  watch unwatch : Scope → Message

pub record Watcher : Type 0 where
  -- What the clean-up of the last effect unwatches: the cluster and the namespace it closes over.
  pub scope : Option Scope
  -- Oldest first.
  pub sent : List Message

-- What the effect watches for a cluster and a view.
unfoldable pub scope_of : Text → Option KubeView → Option Scope
unfolding watch_namespace
scope_of cluster none = none
scope_of cluster (some view) =
    some (record { cluster = cluster; namespace = watch_namespace (some view) })

abbrev watch_of : Option Scope → List Message
watch_of none = []
watch_of (some s) = Message.watch s ∷ []

abbrev unwatch_of : Option Scope → List Message
unwatch_of none = []
unwatch_of (some s) = Message.unwatch s ∷ []

-- The clean-up of the last effect and the effect, or the clean-up alone.
unfoldable pub rewatch : Option Scope → Watcher → Watcher
rewatch next w = record { scope = next; sent = w.sent ++ (unwatch_of w.scope ++ watch_of next) }

pub data Event : Type 0 where
  -- Another cluster or view.
  changed : (cluster : Text) (view : Option KubeView) → Event
  unmounted : Event

unfoldable pub step : Event → Watcher → Watcher
unfolding rewatch scope_of
step (Event.changed cluster view) w = rewatch (scope_of cluster view) w
step Event.unmounted w = rewatch none w

unfoldable pub run : List Event → Watcher → Watcher
unfolding step
run [] w = w
run (e ∷ es) w = run es (step e w)

abbrev pub before : Watcher
before = record { scope = none; sent = [] }

abbrev key_of : Scope → Text
key_of s = s.cluster ++ (codes "/" ++ s.namespace)

-- `onChanged` asks again if the announced key is that of the watch.
unfoldable pub is_announced : Option Scope → Text → Bool
is_announced none key = false
is_announced (some s) key = key == key_of s

-- A server that keeps the scopes which a client watches, and forgets one at each unwatch.
abbrev same_scope : Scope → Scope → Bool
same_scope a b = same_text a.cluster b.cluster && same_text a.namespace b.namespace

abbrev forget : Scope → List Scope → List Scope
forget s [] = []
forget s (t ∷ ts) = let rest = forget s ts in if same_scope t s then ts else t ∷ rest

abbrev receive : Message → List Scope → List Scope
receive (Message.watch s) open_scopes = open_scopes ++ (s ∷ [])
receive (Message.unwatch s) open_scopes = forget s open_scopes

unfoldable pub receive_all : List Message → List Scope → List Scope
receive_all [] open_scopes = open_scopes
receive_all (m ∷ ms) open_scopes = receive_all ms (receive m open_scopes)

abbrev scopes_of : Option Scope → List Scope
scopes_of none = []
scopes_of (some s) = s ∷ []

receive_all-append :
    (ms ns : List Message) (ss : List Scope)
    → receive_all (ms ++ ns) ss ≡ receive_all ns (receive_all ms ss)
unfolding receive_all
receive_all-append [] ns ss = refl
receive_all-append (m ∷ ms) ns ss = receive_all-append ms ns (receive m ss)

forget-own : (s : Scope) → forget s (s ∷ []) ≡ []
forget-own s = rw (eq_self s.cluster, eq_self s.namespace) refl

receive-rewatch :
    (old next : Option Scope)
    → receive_all (unwatch_of old ++ watch_of next) (scopes_of old) ≡ scopes_of next
unfolding receive_all
receive-rewatch none none = refl
receive-rewatch none (some s) = refl
receive-rewatch (some r) none = forget-own r
receive-rewatch (some r) (some s) = ap (λ ss. ss ++ (s ∷ [])) (forget-own r)

abbrev IsKept : Watcher → Type 0
IsKept w = receive_all w.sent [] ≡ scopes_of w.scope

rewatch-IsKept : (next : Option Scope) (w : Watcher) → IsKept w → IsKept (rewatch next w)
unfolding rewatch
rewatch-IsKept next w h =
    receive_all-append w.sent (unwatch_of w.scope ++ watch_of next) []
    ∙ ap (receive_all (unwatch_of w.scope ++ watch_of next)) h
    ∙ receive-rewatch w.scope next

step-IsKept : (e : Event) (w : Watcher) → IsKept w → IsKept (step e w)
unfolding step
step-IsKept (Event.changed cluster view) w h = rewatch-IsKept (scope_of cluster view) w h
step-IsKept Event.unmounted w h = rewatch-IsKept none w h

run-IsKept : (es : List Event) (w : Watcher) → IsKept w → IsKept (run es w)
unfolding run
run-IsKept [] w h = h
run-IsKept (e ∷ es) w h = run-IsKept es (step e w) (step-IsKept e w h)

-- The scopes that the last event asks for: those of its cluster and view. The levels of a namespace
-- and of an object watch the namespace of the view, the others every namespace.
abbrev asked_at : Text → KubeView → Scope
asked_at cluster view = elim view.level [
  | KubeLevel.cluster ↦ record { cluster = cluster; namespace = [] }
  | KubeLevel.node ↦ record { cluster = cluster; namespace = [] }
  | KubeLevel.kind ↦ record { cluster = cluster; namespace = [] }
  | KubeLevel.namespace ↦ record { cluster = cluster; namespace = or_else view.namespace [] }
  | KubeLevel.object ↦ record { cluster = cluster; namespace = or_else view.namespace [] }
]

abbrev pub last_asked : List Event → List Scope
last_asked [] = []
last_asked (Event.changed cluster none ∷ []) = []
last_asked (Event.changed cluster (some view) ∷ []) = asked_at cluster view ∷ []
last_asked (Event.unmounted ∷ []) = []
last_asked (e ∷ f ∷ es) = last_asked (f ∷ es)

scope_of-asked_at :
    (cluster : Text) (view : KubeView) → scope_of cluster (some view) ≡ some (asked_at cluster view)
unfolding scope_of watch_namespace
scope_of-asked_at cluster view = ground arith

step-last_asked : (e : Event) (w : Watcher) → scopes_of (step e w).scope ≡ last_asked (e ∷ [])
unfolding step rewatch scope_of
step-last_asked (Event.changed cluster none) w = refl
step-last_asked (Event.changed cluster (some view)) w =
    ap scopes_of (scope_of-asked_at cluster view)
step-last_asked Event.unmounted w = refl

run-last_asked :
    (e : Event) (es : List Event) (w : Watcher)
    → scopes_of (run (e ∷ es) w).scope ≡ last_asked (e ∷ es)
unfolding run
run-last_asked e [] w = step-last_asked e w
run-last_asked e (f ∷ es) w = run-last_asked f es (step e w)

-- However the cluster and the view change, a server that gets the messages in order watches for this
-- client exactly what the last change asks for: its cluster, with the view's namespace at the levels
-- of a namespace and of an object and with no namespace at the others. It watches nothing before the
-- first event, without a view, and once the hook is gone.
pub receive_all-run : (es : List Event) → receive_all (run es before).sent [] ≡ last_asked es
unfolding receive_all run
receive_all-run [] = refl
receive_all-run (e ∷ es) =
    run-IsKept (e ∷ es) before (unfold receive_all in refl) ∙ run-last_asked e es before
