-- ===== src/Navigation.antt =====
-- client/src/hooks/useKubeNavigation.ts. The hook's state is the route; `hash` is the address bar,
-- which the operations write and which `sync` reads on a hashchange.
pub mod Actions
pub mod Refinement
pub mod Mounting
pub mod Crumbs
mod Tests
use wiremap.Base.{
  drop_last, ℕ, zero, suc, ◌+◌, ◌-◌, Bool, true, false, not, Option, none, some, List, [], ◌∷◌,
  ◌++◌, map, length, take, Text, codes, ltb, leb, ◌&&◌, ◌==◌, text_eq, if◌then◌else◌,
}
use wiremap.KubeTypes.{
  KubeGraphNode, KubeLens, KubeLevel, KubeRoot, KubeView, RootLens, to_lens, bare_view,
}
use wiremap.Route.{
  KubeRoute, Outcome, default_route, is_truthy, or_else, lens_word, node_view, parse_kube_hash,
  to_kube_hash,
}
use wiremap.Format.{plural_kind, decimal}

-- `route?.cluster === cluster ? route : defaultRoute(cluster)`.
abbrev pub own_route : Text → Option KubeRoute → KubeRoute
own_route cluster none = default_route cluster
own_route cluster (some route) = if route.cluster == cluster then route else default_route cluster

abbrev pub map_outcome {ℓ κ} : {A : Type ℓ} {B : Type κ} → (A → B) → Outcome A → Outcome B
map_outcome f Outcome.uri_error = Outcome.uri_error
map_outcome f (Outcome.returns a) = Outcome.returns (f a)

-- With the hash of the address bar given.
unfoldable pub route_from_hash : Text → Text → Outcome KubeRoute
route_from_hash cluster hash = map_outcome (own_route cluster) (parse_kube_hash hash)

abbrev upper_first : Text → Text
upper_first [] = []
upper_first (c ∷ s) = (if leb b'a' c && leb c b'z' then c - 32 else c) ∷ s

abbrev root_label_by : KubeRoot → Text → Text
root_label_by KubeRoot.overview namespace =
    if is_truthy namespace then namespace else codes "Cluster"
root_label_by (KubeRoot.lens l) namespace = upper_first (lens_word l)
root_label_by (KubeRoot.kind group kind) namespace = plural_kind kind

unfoldable pub root_label : KubeRoute → Text
unfolding plural_kind
root_label route = root_label_by route.root route.namespace

-- A text that may be undefined, in a template literal.
abbrev pub shown : Option Text → Text
shown none = codes "undefined"
shown (some s) = s

abbrev drill_label_by : KubeLevel → KubeView → Text
drill_label_by KubeLevel.node view = codes "Node " ++ shown view.name
drill_label_by _ view = shown view.kind ++ (codes " " ++ shown view.name)

unfoldable pub drill_label : KubeView → Text
drill_label view = drill_label_by view.level view

abbrev pub root_view_by : KubeRoot → Text → Option KubeView
root_view_by KubeRoot.overview namespace =
    if is_truthy namespace
    then some (record (bare_view KubeLevel.namespace) { namespace = some namespace })
    else some (record (bare_view KubeLevel.cluster) { lens = some KubeLens.namespaces })
root_view_by (KubeRoot.lens l) namespace =
    some (record (bare_view KubeLevel.cluster) { lens = some (to_lens l) })
root_view_by (KubeRoot.kind group kind) namespace = none

unfoldable pub root_view : KubeRoute → Option KubeView
root_view route = root_view_by route.root route.namespace

pub record Nav : Type 0 where
  pub hash : Text
  pub route : KubeRoute

-- `navigate`: the next route without its cluster.
unfoldable pub navigate : Text → (namespace : Text) → KubeRoot → List KubeView → Nav → Nav
navigate cluster namespace root drills nav = record nav {
  hash =
      to_kube_hash
        (record { cluster = cluster; namespace = namespace; root = root; drills = drills });
}

abbrev with_route : Nav → KubeRoute → Nav
with_route nav route = record nav { route = route }

-- The listener of hashchange.
unfoldable pub sync : Text → Nav → Outcome Nav
unfolding route_from_hash
sync cluster nav = map_outcome (with_route nav) (route_from_hash cluster nav.hash)

abbrev is_of : Text → Option KubeRoute → Bool
is_of cluster none = false
is_of cluster (some route) = route.cluster == cluster

abbrev own_hash : Text → Nav → Option KubeRoute → Nav
own_hash cluster nav parsed =
    if is_of cluster parsed then nav else record nav { hash = to_kube_hash (default_route cluster) }

abbrev sync_after : Text → Outcome Nav → Outcome Nav
sync_after cluster Outcome.uri_error = Outcome.uri_error
sync_after cluster (Outcome.returns nav) = sync cluster nav

-- The effect that runs when the hook is mounted for a cluster.
unfoldable pub mount : Text → Nav → Outcome Nav
unfolding sync
mount cluster nav =
    sync_after cluster (map_outcome (own_hash cluster nav) (parse_kube_hash nav.hash))

-- The clean-up of the effect takes the hash off the address, and the hook listens no more.
unfoldable pub leave : Nav → Nav
leave nav = record nav { hash = [] }

-- The view of an object that is opened from the graph.
abbrev pub opened_view : KubeGraphNode → KubeView
opened_view node = record (bare_view KubeLevel.object) {
  namespace = node.namespace;
  kind = some node.kind;
  group = some (or_else node.api_group []);
  name = some node.name;
}

unfoldable pub drill : Text → KubeGraphNode → Nav → Nav
unfolding navigate
drill cluster node nav =
    let r = nav.route in
    if not node.drillable
    then nav
    else if node.kind == codes "Namespace"
    then navigate cluster node.name KubeRoot.overview [] nav
    else if node.kind == codes "Node"
    then navigate cluster r.namespace r.root (r.drills ++ (node_view node.name ∷ [])) nav
    else navigate cluster r.namespace r.root (r.drills ++ (opened_view node ∷ [])) nav

abbrev pub last? : List KubeView → Option KubeView
last? [] = none
last? (v ∷ []) = some v
last? (v ∷ w ∷ ws) = last? (w ∷ ws)

-- The topology level to draw, or `none` when the root kind is listed.
unfoldable pub view : KubeRoute → Option KubeView
unfolding root_view
view route = if ltb 0 (length route.drills) then last? route.drills else root_view route

-- The labels of the crumbs; the id of each is its index.
unfoldable pub crumbs : KubeRoute → List Text
unfolding root_label drill_label
crumbs route = root_label route ∷ map drill_label route.drills

unfoldable pub can_go_back : KubeRoute → Bool
can_go_back route = ltb 0 (length route.drills)

unfoldable pub back : Text → Nav → Nav
unfolding navigate
back cluster nav =
    navigate cluster nav.route.namespace nav.route.root (drop_last nav.route.drills) nav

unfoldable pub go_to : Text → ℕ → Nav → Nav
unfolding navigate
go_to cluster index nav =
    navigate cluster nav.route.namespace nav.route.root (take index nav.route.drills) nav

unfoldable pub set_namespace : Text → Text → Nav → Nav
unfolding navigate
set_namespace cluster next nav = navigate cluster next nav.route.root [] nav

abbrev or_current : Option Text → Text → Text
or_current none namespace = namespace
or_current (some next) namespace = next

-- `nextNamespace = namespace`: the current one, if none is given.
unfoldable pub set_root : Text → KubeRoot → Option Text → Nav → Nav
unfolding navigate
set_root cluster next next_namespace nav =
    navigate cluster (or_current next_namespace nav.route.namespace) next [] nav
