-- ===== src/Depth.antt =====
-- `ownershipDepth` of client/src/components/organisms/graph_canvas/GraphCanvas.vm.ts: the depth of
-- each node along the edges, level by level. A map is an association list, newest first, and a set
-- is a list: the code only looks keys up.
pub mod Scan
pub mod Levels
pub mod Tops
pub mod Shortest
mod Tests
use wiremap.Base.{
  ℕ, zero, suc, ◌+◌, Bool, true, false, not, ◌&&◌, ◌||◌, Option, none, some, List, [], ◌∷◌, ◌++◌,
  map, keep, Text, length, ◌==◌, text_eq, includes, if◌then◌else◌,
}
use wiremap.KubeTypes.{KubeGraph, KubeGraphEdge, KubeGraphNode}

abbrev pub Depths : Type 0
Depths = List (Text × ℕ)

abbrev pub get : Depths → Text → Option ℕ
get [] x = none
get ((y, n) ∷ d) x = if y == x then some n else get d x

abbrev pub has : Depths → Text → Bool
has d x = elim (get d x) [ none ↦ false | some n ↦ true ]

-- `depth.get(x)!`.
abbrev pub depth_at : Depths → Text → ℕ
depth_at d x = elim (get d x) [ none ↦ 0 | some n ↦ n ]

abbrev pub target_ids : List KubeGraphEdge → List Text
target_ids es = map (λ (e : KubeGraphEdge). e.target) es

-- The nodes that no edge leads to.
unfoldable pub roots : KubeGraph → List Text
roots g =
    map (λ (n : KubeGraphNode). n.id)
      (keep (λ (n : KubeGraphNode). not (includes n.id (target_ids g.edges))) g.nodes)

pub record Progress : Type 0 where
  pub depth : Depths
  pub next : List Text

-- The body of the loop over the edges.
unfoldable pub visit : List Text → KubeGraphEdge → Progress → Progress
visit frontier e p =
    if includes e.source frontier && not (has p.depth e.target)
    then record {
      depth = (e.target, depth_at p.depth e.source + 1) ∷ p.depth;
      next = p.next ++ (e.target ∷ []);
    }
    else p

unfoldable pub scan : List Text → List KubeGraphEdge → Progress → Progress
unfolding visit
scan frontier [] p = p
scan frontier (e ∷ es) p = scan frontier es (visit frontier e p)

-- The `while` loop, on fuel; `none` means that the fuel ran out.
unfoldable pub levels : ℕ → List KubeGraphEdge → List Text → Depths → Option Depths
unfolding scan
levels zero es frontier depth = elim frontier [ [] ↦ some depth | _ ∷ _ ↦ none ]
levels (suc fuel) es frontier depth = elim frontier [
  | [] ↦ some depth
  | x ∷ xs ↦
      let p = scan (x ∷ xs) es (record { depth = depth; next = [] }) in
      levels fuel es p.next p.depth
]

abbrev pub at_zero : List Text → Depths
at_zero [] = []
at_zero (x ∷ xs) = (x, 0) ∷ at_zero xs

-- A round that finds a target takes at least one edge off those still to be used, so one round for
-- each edge and one more are enough.
unfoldable pub ownership_depth : KubeGraph → Option Depths
unfolding levels roots
ownership_depth g =
    let front = roots g in levels (suc (length g.edges)) g.edges front (at_zero front)
