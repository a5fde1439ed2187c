-- ===== src/Canvas.antt =====
-- client/src/components/organisms/graph_canvas/GraphCanvas.vm.ts, without ownershipDepth (Depth) and
-- the sizes: the column of each node, and the positions that outlive a graph. A map is an association
-- list, newest first. The tables are looked up by the kind of a node, which the cluster writes with a
-- capital, so that none is the name of a member that every object inherits.
pub mod Styles
pub mod Sorted
pub mod Ranks
pub mod Placing
pub mod Layout
pub mod Entries
pub mod Aligned
mod Tests
use wiremap.Base.{
  ℕ, zero, suc, ◌+◌, Bool, true, false, not, ◌&&◌, ◌||◌, Option, none, some, List, [], ◌∷◌, ◌++◌,
  map, keep, Text, codes, leb, ltb, ◌==◌, nat_eq, text_eq, if◌then◌else◌,
}
use wiremap.Depth.{Depths, get, ownership_depth}
use wiremap.KubeTypes.{KubeGraph, KubeGraphNode, KubeLevel}

abbrev pub Table : Type 0
Table = List (Text × ℕ)

abbrev pub namespace_columns : Table
namespace_columns =
    (codes "Ingress", 0)
    ∷ (codes "Gateway", 0)
    ∷ (codes "HTTPRoute", 1)
    ∷ (codes "GRPCRoute", 1)
    ∷ (codes "TLSRoute", 1)
    ∷ (codes "TCPRoute", 1)
    ∷ (codes "UDPRoute", 1)
    ∷ (codes "Service", 2)
    ∷ (codes "HorizontalPodAutoscaler", 3)
    ∷ (codes "PodDisruptionBudget", 3)
    ∷ (codes "NetworkPolicy", 3)
    ∷ (codes "ResourceQuota", 3)
    ∷ (codes "LimitRange", 3)
    ∷ (codes "ConfigMap", 5)
    ∷ (codes "Secret", 5)
    ∷ (codes "PersistentVolumeClaim", 5)
    ∷ (codes "ServiceAccount", 5)
    ∷ (codes "PersistentVolume", 6)
    ∷ (codes "RoleBinding", 6)
    ∷ (codes "ClusterRoleBinding", 6)
    ∷ (codes "StorageClass", 7)
    ∷ (codes "Role", 7)
    ∷ (codes "ClusterRole", 7)
    ∷ []

abbrev pub workload_column : ℕ
workload_column = 4

abbrev pub storage_columns : Table
storage_columns =
    (codes "PersistentVolumeClaim", 0)
    ∷ (codes "PersistentVolume", 1)
    ∷ (codes "StorageClass", 2)
    ∷ []

abbrev pub access_columns : Table
access_columns =
    (codes "User", 0)
    ∷ (codes "Group", 0)
    ∷ (codes "ServiceAccount", 0)
    ∷ (codes "RoleBinding", 1)
    ∷ (codes "ClusterRoleBinding", 1)
    ∷ (codes "Role", 2)
    ∷ (codes "ClusterRole", 2)
    ∷ []

-- `table[kind] ?? fallback`.
abbrev pub column_in : Table → ℕ → Text → ℕ
column_in table fallback kind = elim (get table kind) [ none ↦ fallback | some n ↦ n ]

abbrev pub raw_column : KubeGraphNode → ℕ
raw_column n = column_in namespace_columns workload_column n.kind

-- `[...new Set(xs)]`.
unfoldable pub unique : List ℕ → List ℕ
unique [] = []
unique (x ∷ xs) = x ∷ keep (λ y. not (y == x)) (unique xs)

unfoldable pub insert : ℕ → List ℕ → List ℕ
insert x [] = x ∷ []
insert x (y ∷ ys) = let rest = insert x ys in if leb x y then x ∷ y ∷ ys else y ∷ rest

-- `sort((a, b) => a - b)`.
unfoldable pub sort : List ℕ → List ℕ
unfolding insert
sort [] = []
sort (x ∷ xs) = insert x (sort xs)

-- `indexOf` of a member: the code looks up no other.
unfoldable pub index_of : ℕ → List ℕ → ℕ
index_of x [] = 0
index_of x (y ∷ ys) = let later = index_of x ys in if y == x then 0 else later + 1

unfoldable pub used : List KubeGraphNode → List ℕ
unfolding sort unique
used nodes = sort (unique (map raw_column nodes))

-- `new Map(nodes.map((n) => [n.id, f(n)]))`: the last pair of a key counts.
abbrev pub map_of : (KubeGraphNode → ℕ) → List KubeGraphNode → Depths
map_of f [] = []
map_of f (n ∷ ns) = map_of f ns ++ ((n.id, f n) ∷ [])

abbrev pub some_node : (KubeGraphNode → Bool) → List KubeGraphNode → Bool
some_node p [] = false
some_node p (n ∷ ns) = p n || some_node p ns

abbrev is_stored : KubeGraphNode → Bool
is_stored n = elim (get storage_columns n.kind) [ none ↦ false | some c ↦ true ]

abbrev is_binding : KubeGraphNode → Bool
is_binding n = n.kind == codes "RoleBinding" || n.kind == codes "ClusterRoleBinding"

abbrev lens_columns : List KubeGraphNode → Depths
lens_columns nodes =
    if some_node is_stored nodes
    then map_of (λ n. column_in storage_columns 0 n.kind) nodes
    else if some_node is_binding nodes
    then map_of (λ n. column_in access_columns 0 n.kind) nodes
    else []

abbrev namespace_map : List KubeGraphNode → Depths
namespace_map nodes = map_of (λ n. index_of (raw_column n) (used nodes)) nodes

-- `none` is a loop of ownershipDepth that does not end, which never is.
unfoldable pub node_columns : KubeGraph → Option Depths
unfolding used index_of ownership_depth
node_columns g = elim g.level [
  | KubeLevel.namespace ↦ some (namespace_map g.nodes)
  | KubeLevel.object ↦ ownership_depth g
  | KubeLevel.kind ↦ some []
  | KubeLevel.cluster ↦ some (lens_columns g.nodes)
  | KubeLevel.node ↦ some (lens_columns g.nodes)
]

-- The positions, as coordinates in `P`, a node that is drawn, and what is saved of it.
pub record Placed (P : Type 0) : Type 0 where
  pub node : KubeGraphNode
  pub position : Option P

abbrev pub Positions : Type 0 → Type 0
Positions P = List (Text × P)

module _ {P : Type 0} where
  abbrev pub position_at : Positions P → Text → Option P
  position_at [] id = none
  position_at ((key, p) ∷ ps) id = if key == id then some p else position_at ps id

  unfoldable pub placed : Positions P → KubeGraphNode → Placed P
  placed saved n = record { node = n; position = position_at saved n.id }

  unfoldable pub save_positions : List (Placed P) → Positions P → Positions P
  save_positions [] saved = saved
  save_positions (n ∷ ns) saved =
      save_positions ns (elim n.position [ none ↦ saved | some p ↦ (n.node.id, p) ∷ saved ])
