-- ===== src/Canvas/Ranks.antt =====
-- The columns of a namespace's graph: what empty columns leave.
use wiremap.Base.{
  ℕ, ◌≡◌, refl, ap, ◌∙◌, inl, inr, ◌⊎◌, true, false, Option, none, some, List, [], ◌∷◌, ◌++◌, map,
  Text, subst, Bool-cases, Distinct, includes, same_text, same_text_iff, arith, ◌==◌, text_eq,
}
use wiremap.KubeTypes.{KubeGraph, KubeGraphNode, KubeLevel}
use wiremap.Depth.{Depths, get}
use wiremap.Canvas.{index_of, map_of, namespace_map, node_columns, raw_column, sort, unique, used}
use wiremap.Canvas.Sorted.{
  Has, Has-sort-unique, below, below-sort, index_of-below, sort-unique-IsRising,
}

abbrev pub node_ids : List KubeGraphNode → List Text
node_ids = map (λ n. n.id)

-- `n` is one of the nodes.
abbrev pub IsNode : KubeGraphNode → List KubeGraphNode → Type 0
IsNode n [] = ⊥
IsNode n (m ∷ ms) = (m ≡ n) ⊎ IsNode n ms

includes-node :
    (n : KubeGraphNode) (ns : List KubeGraphNode) → IsNode n ns → includes n.id (node_ids ns) ≡ true
includes-node n [] h = absurd h
includes-node n (m ∷ ms) (inl e) =
    rw ((same_text_iff m.id n.id).1 (ap (λ (x : KubeGraphNode). x.id) e)) refl
includes-node n (m ∷ ms) (inr h) = rw (includes-node n ms h) (ground arith)

abbrev or_later : Option ℕ → Option ℕ → Option ℕ
or_later none o = o
or_later (some n) o = some n

get-append : (d e : Depths) (x : Text) → get (d ++ e) x ≡ or_later (get d x) (get e x)
get-append [] e x = refl
get-append ((y, n) ∷ d) e x = elim (Bool-cases (y == x)) [
  | inl h ↦ rw h refl
  | inr h ↦ rw h (get-append d e x)
]

module _ (f : KubeGraphNode → ℕ) where
  get-absent :
      (ns : List KubeGraphNode) (x : Text)
      → includes x (node_ids ns) ≡ false
      → get (map_of f ns) x ≡ none
  get-absent [] x h = refl
  get-absent (n ∷ ns) x h =
      let other : same_text n.id x ≡ false = ground (arith, h) in
      get-append (map_of f ns) _ x ∙ (rw (get-absent ns x (ground (arith, h)), other) refl)

  get-map_of :
      (n : KubeGraphNode) (ns : List KubeGraphNode)
      → Distinct (node_ids ns)
      → IsNode n ns
      → get (map_of f ns) n.id ≡ some (f n)
  get-map_of n [] d h = absurd h
  get-map_of n (m ∷ ms) d (inl e) =
      subst (λ (k : KubeGraphNode). get (map_of f (m ∷ ms)) k.id ≡ some (f k)) e
        (get-append (map_of f ms) _ m.id
          ∙ (rw (get-absent ms m.id d.0, (same_text_iff m.id m.id).1 refl) refl))
  get-map_of n (m ∷ ms) d (inr h) =
      get-append (map_of f ms) _ n.id ∙ (rw (get-map_of n ms d.1 h) refl)

Has-raw :
    (n : KubeGraphNode) (ns : List KubeGraphNode)
    → IsNode n ns
    → Has (raw_column n) (map raw_column ns)
Has-raw n [] h = absurd h
Has-raw n (m ∷ ms) (inl e) = inl (ap raw_column e)
Has-raw n (m ∷ ms) (inr h) = inr (Has-raw n ms h)

index_of-used :
    (n : KubeGraphNode) (ns : List KubeGraphNode)
    → IsNode n ns
    → index_of (raw_column n) (used ns) ≡ below (raw_column n) (unique (map raw_column ns))
unfolding used
index_of-used n ns h =
    index_of-below (raw_column n) (sort (unique (map raw_column ns)))
      (sort-unique-IsRising (map raw_column ns))
      (Has-sort-unique (raw_column n) (map raw_column ns) (Has-raw n ns h))
    ∙ below-sort (raw_column n) (unique (map raw_column ns))

-- In a namespace's graph whose nodes have distinct ids, the column of a node is the number of
-- different columns that the kinds of the graph have to the left of the node's own: the columns keep
-- their order, and none is empty.
pub node_columns-below :
    (g : KubeGraph) (n : KubeGraphNode)
    → g.level ≡ KubeLevel.namespace
    → Distinct (map (λ m. m.id) g.nodes)
    → IsNode n g.nodes
    → (d : Depths) × (node_columns g ≡ some d)
      × (get d n.id ≡ some (below (raw_column n) (unique (map raw_column g.nodes))))
unfolding node_columns
node_columns-below g n e d h = (
  namespace_map g.nodes,
  rw e refl,
  get-map_of (λ m. index_of (raw_column m) (used g.nodes)) n g.nodes d h
      ∙ ap some (index_of-used n g.nodes h),
)
