-- ===== src/Graphs/Tests.antt =====
-- The theorems on the graphs at two objects and at a graph of three nodes.
use wiremap.Base.{
  Distinct, ◌≡◌, refl, true, false, none, some, List, [], ◌∷◌, Text, codes, same_text, All, text_eq,
}
use wiremap.KubeTypes.{
  KubeEdgeKind, KubeGraph, KubeGraphEdge, KubeGraphNode, KubeLevel, KubeNodeStatus, KubeObject,
}
use wiremap.Blank.{trim}
use wiremap.Graphs.{Category, kind_graph, visible_graph}
use wiremap.Graphs.Grouped.{AllShown, IsUsed, group_ids, kind_graph-AllShown}

abbrev node : Text → Text → KubeGraphNode
node kind name = record {
  id = name;
  kind = kind;
  api_group = none;
  name = name;
  namespace = none;
  status = KubeNodeStatus.healthy;
  summary = [];
  drillable = false;
  group = none;
  weight = 1;
  details = none;
}

abbrev edge : Text → Text → KubeGraphEdge
edge a b = record { source = a; target = b; kind = KubeEdgeKind.uses }

abbrev small : KubeGraph
small = record {
  level = KubeLevel.namespace;
  nodes =
      node (codes "Pod") (codes "web")
      ∷ node (codes "Secret") (codes "key")
      ∷ node (codes "Role") (codes "admin")
      ∷ [];
  edges = edge (codes "web") (codes "key") ∷ edge (codes "admin") (codes "web") ∷ [];
  groups = [];
}

seen :
    (visible_graph (λ s. s) Category.config [] small ≡ record small {
      nodes = node (codes "Pod") (codes "web") ∷ node (codes "Secret") (codes "key") ∷ [];
      edges = edge (codes "web") (codes "key") ∷ [];
    })
    × ((visible_graph (λ s. s) Category.all (codes " dm ") small).nodes
        ≡ node (codes "Role") (codes "admin") ∷ [])
unfolding visible_graph same_text trim
seen = (refl, refl)

abbrev object : Text → Text → KubeObject
object ns name = record {
  name = name;
  namespace = some ns;
  kind = codes "Pod";
  group = none;
  status = KubeNodeStatus.idle;
  summary = [];
  created = [];
  drillable = true;
}

abbrev objects : List KubeObject
objects =
    object (codes "shop") (codes "web")
    ∷ object [] (codes "disk")
    ∷ object (codes "shop") (codes "api")
    ∷ []

kind_graph-AllShown_example :
    let g = kind_graph (λ s. s) objects true in
    let bare = kind_graph (λ s. s) objects false in
    AllShown g.groups objects g.nodes
    × Distinct (group_ids g.groups)
    × All (IsUsed objects) g.groups
    × (bare.groups ≡ [])
    × All (λ (n : KubeGraphNode). n.group ≡ none) bare.nodes
kind_graph-AllShown_example = kind_graph-AllShown (λ s. s) objects
