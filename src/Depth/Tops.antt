-- ===== src/Depth/Tops.antt =====
-- Walks from the nodes that no edge leads to, and the roots that the code computes.
use wiremap.Base.{
  refl, false, not, ◌&&◌, map, keep, Bool-cases, same_text, same_text_iff, eq_self, includes, ℕ,
  suc, ◌≡◌, ap, inl, inr, true, List, [], ◌∷◌, Text, arith, text_eq,
}
use wiremap.KubeTypes.{KubeGraph, KubeGraphEdge, KubeGraphNode}
use wiremap.Depth.{target_ids, roots}
use wiremap.Depth.Scan.{has_edge, Walk}

-- A node of the graph that no edge leads to.
abbrev pub IsTop : KubeGraph → Text → Type 0
IsTop g x =
    (includes x (map (λ (n : KubeGraphNode). n.id) g.nodes) ≡ true)
    × ((u : Text) → has_edge g.edges u x ≡ false)

-- A walk of `n` edges that begins at such a node.
pub data Descent (g : KubeGraph) : Text → ℕ → Type 0 where
  top : {x : Text} → IsTop g x → Descent g x 0
  down : {u v : Text} {n : ℕ} → Descent g u n → has_edge g.edges u v ≡ true → Descent g v (suc n)

includes-kept :
    (ts : List Text) (x : Text) (ns : List KubeGraphNode)
    → includes x (
        map (λ (n : KubeGraphNode). n.id) (keep (λ (n : KubeGraphNode). not (includes n.id ts)) ns))
      ≡ (includes x (map (λ (n : KubeGraphNode). n.id) ns) && not (includes x ts))
includes-kept ts x [] = refl
includes-kept ts x (n ∷ ns) = elim (Bool-cases (same_text n.id x)) [
  | inl same ↦
      let e = ap (λ t. includes t ts) ((same_text_iff n.id x).0 same) in
      ground (arith, e, includes-kept ts x ns)
  | inr other ↦ ground (arith, includes-kept ts x ns)
]

no_edge :
    (es : List KubeGraphEdge) (x : Text)
    → includes x (target_ids es) ≡ false
    → (u : Text) → has_edge es u x ≡ false
no_edge [] x h u = refl
no_edge (e ∷ es) x h u = let rest = no_edge es x (ground (arith, h)) u in ground (arith, rest, h)

no_target :
    (es : List KubeGraphEdge) (x : Text)
    → ((u : Text) → has_edge es u x ≡ false)
    → includes x (target_ids es) ≡ false
no_target [] x h = refl
no_target (e ∷ es) x h =
    let here = h e.source in
    let rest = no_target es x (λ u. ground (arith, h u)) in
    ground (arith, here, rest, eq_self e.source)

roots-IsTop : (g : KubeGraph) (x : Text) → includes x (roots g) ≡ true → IsTop g x
unfolding roots
roots-IsTop g x h =
    let kept = includes-kept (target_ids g.edges) x g.nodes in
    (ground (arith, kept, h), no_edge g.edges x (ground (arith, kept, h)))

IsTop-roots : (g : KubeGraph) (x : Text) → IsTop g x → includes x (roots g) ≡ true
unfolding roots
IsTop-roots g x (node, alone) =
    let kept = includes-kept (target_ids g.edges) x g.nodes in
    let free = no_target g.edges x alone in ground (arith, kept, node, free)

pub Walk-Descent : (g : KubeGraph) {x : Text} {n : ℕ} → Walk g.edges (roots g) x n → Descent g x n
Walk-Descent g (Walk.start {x} h) = Descent.top (roots-IsTop g x h)
Walk-Descent g (Walk.step {u} {v} {n} w edge) = Descent.down (Walk-Descent g w) edge

pub Descent-Walk : (g : KubeGraph) {x : Text} {n : ℕ} → Descent g x n → Walk g.edges (roots g) x n
Descent-Walk g (Descent.top {x} h) = Walk.start (IsTop-roots g x h)
Descent-Walk g (Descent.down {u} {v} {n} w edge) = Walk.step (Descent-Walk g w) edge
