-- ===== src/Depth/Tests.antt =====
-- A workload with its pods, and the theorems on it.
use wiremap.Base.{ℕ, ◌≤◌, ◌≡◌, refl, true, none, some, [], ◌∷◌, Text, codes, same_text}
use wiremap.KubeTypes.{
  KubeEdgeKind, KubeGraph, KubeGraphEdge, KubeGraphNode, KubeLevel, KubeNodeStatus,
}
use wiremap.Depth.{Depths, get, ownership_depth}
use wiremap.Depth.Tops.{Descent}
use wiremap.Depth.Shortest.{ownership_depth-shortest}

abbrev pod : Text → KubeGraphNode
pod id = record {
  id = id;
  kind = codes "Pod";
  api_group = none;
  name = id;
  namespace = none;
  status = KubeNodeStatus.healthy;
  summary = [];
  drillable = true;
  group = none;
  weight = 1;
  details = none;
}

abbrev owns : Text → Text → KubeGraphEdge
owns a b = record { source = a; target = b; kind = KubeEdgeKind.owns }

-- a owns b and c, b owns c, and c owns d.
abbrev sample : KubeGraph
sample = record {
  level = KubeLevel.object;
  nodes = pod (codes "a") ∷ pod (codes "b") ∷ pod (codes "c") ∷ pod (codes "d") ∷ [];
  edges =
      owns (codes "a") (codes "b")
      ∷ owns (codes "b") (codes "c")
      ∷ owns (codes "a") (codes "c")
      ∷ owns (codes "c") (codes "d")
      ∷ [];
  groups = [];
}

abbrev depths : Depths
depths = (codes "d", 2) ∷ (codes "c", 1) ∷ (codes "b", 1) ∷ (codes "a", 0) ∷ []

sample-depths : ownership_depth sample ≡ some depths
unfolding ownership_depth same_text
sample-depths = refl

ownership_depth-shortest_example :
    (d : Depths) × (ownership_depth sample ≡ some d)
    × ((x : Text) (j : ℕ) → get d x ≡ some j → Descent sample x j)
    × ((x : Text) (m : ℕ) → Descent sample x m → (j : ℕ) × (get d x ≡ some j) × (j ≤ m))
ownership_depth-shortest_example = ownership_depth-shortest sample
