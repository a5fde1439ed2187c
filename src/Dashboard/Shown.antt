-- ===== src/Dashboard/Shown.antt =====
-- What the dashboard of a cluster shows: the values that useKubeDashboard computes from its hooks.
use wiremap.Base.{
  ℕ, Bool, true, false, not, ◌&&◌, ◌||◌, Option, none, some, List, [], ◌∷◌, ◌++◌, map, find, length,
  Text, codes, ◌==◌, text_eq, if◌then◌else◌,
}
use wiremap.Format.{decimal}
use wiremap.Navigation.{view}
use wiremap.Route.{KubeRoute, is_truthy}
use wiremap.KubeTypes.{KubeGraph, KubeGraphNode, KubeKind, KubeObject, KubeRoot}
use wiremap.Graphs.{kind_graph, visible_graph}
use wiremap.Objects.{KubeObjects, has_more, loading, shown_items}
use wiremap.Polling.{KubeTopology, topology_loading}
use wiremap.Dashboard.{Dashboard, has_shell}

-- The results of the hooks.
pub record Loaded : Type 0 where
  pub route : KubeRoute
  pub kinds : List KubeKind
  pub kinds_loading : Bool
  pub topology : KubeTopology
  pub objects : KubeObjects
  pub namespaces : List KubeObject

abbrev pub is_kind : KubeRoot → Bool
is_kind (KubeRoot.kind group kind) = true
is_kind _ = false

abbrev pub is_none : {A : Type 0} → Option A → Bool
is_none none = true
is_none (some a) = false

unfoldable pub listing : Loaded → Bool
unfolding view
listing l = is_kind l.route.root && is_none (view l.route)

abbrev pub find_kind : KubeRoot → List KubeKind → Option KubeKind
find_kind (KubeRoot.kind group kind) ks =
    find (λ (k : KubeKind). k.group == group && k.kind == kind) ks
find_kind _ ks = none

unfoldable pub listed_kind : Loaded → Option KubeKind
unfolding listing
listed_kind l = if listing l then find_kind l.route.root l.kinds else none

unfoldable pub namespace_kind : List KubeKind → Option KubeKind
namespace_kind ks = find (λ (k : KubeKind). k.group == [] && k.kind == codes "Namespace") ks

-- `age` is formatAge of a timestamp, now; `lower` is `toLowerCase`.
module _ (age : Text → Text) (lower : Text → Text) where
  abbrev pub list_graph : Option KubeKind → Loaded → Option KubeGraph
  list_graph none l = none
  list_graph (some k) l =
      if loading l.objects
      then none
      else some (
          kind_graph age (shown_items l.objects)
            (not (is_truthy l.route.namespace) && k.namespaced))

  unfoldable pub graph : Loaded → Option KubeGraph
  unfolding listing listed_kind
  graph l = if listing l then list_graph (listed_kind l) l else l.topology.graph

  abbrev pub visible : Option KubeGraph → Dashboard → Option KubeGraph
  visible none s = none
  visible (some g) s = some (visible_graph lower s.category s.filter g)

  unfoldable pub shown_graph : Loaded → Dashboard → Option KubeGraph
  unfolding graph
  shown_graph l s = visible (graph l) s

unfoldable pub kind_missing : Loaded → Bool
unfolding listing listed_kind
kind_missing l = listing l && not l.kinds_loading && is_none (listed_kind l)

abbrev pub kind_name : KubeRoot → Text
kind_name (KubeRoot.kind group kind) = kind
kind_name _ = []

unfoldable pub error : Loaded → Option Text
unfolding listing kind_missing
error l =
    if listing l
    then if kind_missing l
      then some (kind_name l.route.root ++ codes " is not served by this cluster")
      else l.objects.error
    else l.topology.error

unfoldable pub is_loading : Loaded → Bool
unfolding listing
is_loading l =
    if listing l
    then l.kinds_loading || loading l.objects
    else topology_loading (view l.route) l.topology

abbrev nothing : Text → Text
nothing filter =
    if is_truthy filter
    then codes "Nothing matches \"" ++ (filter ++ codes "\"")
    else codes "Nothing here"

abbrev pub when_empty : Option KubeGraph → Text → Option Text
when_empty none filter = none
when_empty (some g) filter = elim g.nodes [ [] ↦ some (nothing filter) | n ∷ ns ↦ none ]

-- `error || x`, for an error that may be absent.
abbrev pub error_or : Option Text → Option Text → Option Text
error_or none other = other
error_or (some e) other = if is_truthy e then some e else other

unfoldable pub placeholder : Loaded → Option KubeGraph → Text → Option Text
unfolding error is_loading
placeholder l shown filter =
    error_or (error l) (if is_loading l then some (codes "Loading...") else when_empty shown filter)

pub record Hint : Type 0 where
  pub keys : Text
  pub label : Text

abbrev hint : Text → Text → Hint
hint keys label = record { keys = keys; label = label }

abbrev enter_hint : Option KubeGraphNode → List Hint
enter_hint none = []
enter_hint (some n) =
    if n.drillable
    then hint (codes "enter") (if n.kind == codes "Container" then codes "logs" else codes "open")
      ∷ []
    else []

unfoldable pub hints : Option KubeGraphNode → Bool → List Hint
unfolding has_shell
hints selected can_go_back =
    hint (codes ":") (codes "resources")
    ∷ hint (codes "/") (codes "filter")
    ∷ hint (codes "↑↓") (codes "select")
    ∷ (enter_hint selected
        ++ ((if has_shell selected
              then hint (codes "l") (codes "logs") ∷ hint (codes "s") (codes "shell") ∷ []
              else [])
            ++ (if is_none selected
                then if can_go_back then hint (codes "esc") (codes "back") ∷ [] else []
                else hint (codes "y") (codes "yaml")
                  ∷ hint (codes "d") (codes "describe")
                  ∷ hint (codes "esc") (codes "close")
                  ∷ [])))

pub record NamespaceOption : Type 0 where
  pub value : Text
  pub label : Text

-- `ALL_NAMESPACES` of this file.
abbrev pub every_namespace : Text
every_namespace = []

unfoldable pub namespace_options : List KubeObject → List NamespaceOption
namespace_options ns =
    record { value = every_namespace; label = codes "All namespaces" }
    ∷ map (λ (n : KubeObject). record { value = n.name; label = n.name }) ns

abbrev count_of : Option KubeGraph → ℕ
count_of none = 0
count_of (some g) = length g.nodes

unfoldable pub object_count : Loaded → Option KubeGraph → Text
unfolding listing has_more decimal
object_count l shown =
    decimal (count_of shown)
    ++ ((if listing l && has_more l.objects then codes "+" else []) ++ codes " objects")
