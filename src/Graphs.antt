-- ===== src/Graphs.antt =====
-- The graphs that client/src/components/pages/kube_dashboard/KubeDashboard.vm.ts draws: the graph of
-- a listed kind, and the visible part of a graph. `toLowerCase` is the argument `lower`, the age of
-- a timestamp at the present time is the argument `age`.
pub mod Visible
pub mod Grouped
mod Tests
use wiremap.Base.{
  ℕ, Bool, true, false, not, ◌&&◌, ◌||◌, Option, none, some, List, [], ◌∷◌, ◌++◌, map, keep, Text,
  codes, includes, starts_with, contains, ◌==◌, text_eq, if◌then◌else◌,
}
use wiremap.Blank.{trim}
use wiremap.Route.{is_truthy, or_else}
use wiremap.KubeTypes.{
  KubeGraph, KubeGraphEdge, KubeGraphGroup, KubeGraphNode, KubeLevel, KubeObject,
}

pub data Category : Type 0 where
  all workloads config security : Category

abbrev pub config_kinds : List Text
config_kinds =
    codes "ConfigMap"
    ∷ codes "Secret"
    ∷ codes "PersistentVolumeClaim"
    ∷ codes "PersistentVolume"
    ∷ codes "StorageClass"
    ∷ codes "ResourceQuota"
    ∷ codes "LimitRange"
    ∷ []

abbrev pub security_kinds : List Text
security_kinds =
    codes "ServiceAccount"
    ∷ codes "RoleBinding"
    ∷ codes "ClusterRoleBinding"
    ∷ codes "Role"
    ∷ codes "ClusterRole"
    ∷ codes "NetworkPolicy"
    ∷ []

unfoldable pub hidden_kinds : Category → List Text
hidden_kinds Category.all = []
hidden_kinds Category.workloads = config_kinds ++ security_kinds
hidden_kinds Category.config = security_kinds
hidden_kinds Category.security = config_kinds

abbrev pub node_ids : List KubeGraphNode → List Text
node_ids ns = map (λ (n : KubeGraphNode). n.id) ns

unfoldable pub without_nodes : KubeGraph → (KubeGraphNode → Bool) → KubeGraph
without_nodes g p =
    let visible = node_ids (keep p g.nodes) in
    record g {
      nodes = keep (λ (n : KubeGraphNode). includes n.id visible) g.nodes;
      edges =
          keep (λ (e : KubeGraphEdge). includes e.source visible && includes e.target visible)
            g.edges;
    }

-- The elements of a set, in the order in which they were first added.
unfoldable pub distinct : List Text → List Text
distinct [] = []
distinct (x ∷ xs) = x ∷ keep (λ y. not (y == x)) (distinct xs)

abbrev pub group_id : Text → Text
group_id ns = codes "Namespace//" ++ ns

abbrev pub group_of : Bool → KubeObject → Option Text
group_of grouped o =
    if grouped && is_truthy (or_else o.namespace [])
    then some (group_id (or_else o.namespace []))
    else none

abbrev pub group_named : Text → KubeGraphGroup
group_named ns = record { id = group_id ns; name = ns; kind = codes "Namespace" }

-- The namespaces of the objects that have one.
unfoldable pub namespaces : List KubeObject → List Text
unfolding distinct
namespaces objects =
    keep is_truthy (distinct (map (λ (o : KubeObject). or_else o.namespace []) objects))

module _ (age : Text → Text) where
  abbrev pub object_node : Bool → KubeObject → KubeGraphNode
  object_node grouped o = record {
    id = o.kind ++ (codes "/" ++ (or_else o.namespace [] ++ (codes "/" ++ o.name)));
    kind = o.kind;
    api_group = o.group;
    name = o.name;
    namespace = o.namespace;
    status = o.status;
    summary = o.summary;
    drillable = o.drillable;
    group = group_of grouped o;
    weight = 1;
    details = some ((codes "Age", age o.created) ∷ []);
  }

  unfoldable pub kind_graph : List KubeObject → Bool → KubeGraph
  unfolding namespaces
  kind_graph objects grouped = record {
    level = KubeLevel.kind;
    edges = [];
    groups = if grouped then map group_named (namespaces objects) else [];
    nodes = map (object_node grouped) objects;
  }

abbrev is_namespace_level : KubeLevel → Bool
is_namespace_level KubeLevel.namespace = true
is_namespace_level _ = false

abbrev pub hidden_at : KubeLevel → Category → List Text
hidden_at level category = if is_namespace_level level then hidden_kinds category else []

module _ (lower : Text → Text) where
  -- The test of `visibleGraph`, for what the category hides and the query.
  unfoldable pub is_visible : List Text → Text → KubeGraphNode → Bool
  is_visible hidden query n =
      not (includes n.kind hidden)
      && (not (is_truthy query) || contains query (lower n.name) || contains query (lower n.kind))

  unfoldable pub visible_graph : Category → Text → KubeGraph → KubeGraph
  unfolding without_nodes is_visible hidden_kinds
  visible_graph category filter g =
      without_nodes g (is_visible (hidden_at g.level category) (lower (trim filter)))
