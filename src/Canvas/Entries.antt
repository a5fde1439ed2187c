-- ===== src/Canvas/Entries.antt =====
-- The columns with their nodes: an entry holds nodes of its column, and every node with one is held.
use wiremap.Base.{
  ℕ, ◌≡◌, sym, ap, ◌∙◌, inl, inr, ◌⊎◌, some, List, [], ◌∷◌, ◌++◌, All, All-append, Bool-cases,
  Option-cases, not_none-some, ◌==◌, nat_eq, text_eq,
}
use wiremap.Base.Compare.{nat_beq_iff}
use wiremap.KubeTypes.{KubeGraphNode}
use wiremap.Depth.{Depths, get}
use wiremap.Canvas.Ranks.{IsNode}
use wiremap.Canvas.Layout.{ByColumn, add_node, by_column, free_column, is_grouped}

module _ (columns : Depths) where
  -- The nodes of an entry have its column.
  abbrev pub InColumn : ℕ × List KubeGraphNode → Type 0
  InColumn (c, ns) = All (λ n. get columns n.id ≡ some c) ns

  pub free_column-get :
      (n : KubeGraphNode) (c : ℕ) → free_column columns n ≡ some c → get columns n.id ≡ some c
  free_column-get n c e = elim (Bool-cases (is_grouped n)) [
    | inl h ↦ absurd (not_none-some (rw h at e))
    | inr h ↦ rw h at e
  ]

  add_node-InColumn :
      (c : ℕ) (n : KubeGraphNode) (b : ByColumn)
      → get columns n.id ≡ some c
      → All InColumn b
      → All InColumn (add_node c n b)
  add_node-InColumn c n [] e h = ((e, tt), tt)
  add_node-InColumn c n ((d, ns) ∷ rest) e h = elim (Bool-cases (d == c)) [
    | inl q ↦
        rw q (All-append _ ns (n ∷ []) h.0 (e ∙ ap some (sym ((nat_beq_iff d c).0 q)), tt), h.1)
    | inr q ↦ rw q (h.0, add_node-InColumn c n rest e h.1)
  ]

  pub by_column-InColumn :
      (ns : List KubeGraphNode) (b : ByColumn)
      → All InColumn b
      → All InColumn (by_column columns ns b)
  unfolding by_column
  by_column-InColumn [] b h = h
  by_column-InColumn (n ∷ ns) b h = elim (Option-cases (free_column columns n)) [
    | inl e ↦ rw e (by_column-InColumn ns b h)
    | inr (c, e) ↦
        rw e (
          by_column-InColumn ns (add_node c n b)
            (add_node-InColumn c n b (free_column-get n c e) h))
  ]

  -- A node that stands in some entry.
  abbrev pub IsHeld : KubeGraphNode → ByColumn → Type 0
  IsHeld n [] = ⊥
  IsHeld n ((c, ns) ∷ b) = IsNode n ns ⊎ IsHeld n b

  IsNode-append :
      (m : KubeGraphNode) (ns ms : List KubeGraphNode)
      → IsNode m ns ⊎ IsNode m ms
      → IsNode m (ns ++ ms)
  IsNode-append m [] ms (inl h) = absurd h
  IsNode-append m [] ms (inr h) = h
  IsNode-append m (n ∷ ns) ms (inl (inl e)) = inl e
  IsNode-append m (n ∷ ns) ms (inl (inr h)) = inr (IsNode-append m ns ms (inl h))
  IsNode-append m (n ∷ ns) ms (inr h) = inr (IsNode-append m ns ms (inr h))

  add_node-IsHeld :
      (c : ℕ) (m n : KubeGraphNode) (b : ByColumn)
      → (n ≡ m) ⊎ IsHeld m b
      → IsHeld m (add_node c n b)
  add_node-IsHeld c m n [] (inl e) = inl (inl e)
  add_node-IsHeld c m n [] (inr h) = absurd h
  add_node-IsHeld c m n ((d, ns) ∷ rest) h = elim (Bool-cases (d == c)) [
    | inl q ↦ rw q (elim h [
      | inl e ↦ inl (IsNode-append m ns (n ∷ []) (inr (inl e)))
      | inr k ↦ elim k [ inl i ↦ inl (IsNode-append m ns (n ∷ []) (inl i)) | inr i ↦ inr i ]
    ])
    | inr q ↦ rw q (elim h [
      | inl e ↦ inr (add_node-IsHeld c m n rest (inl e))
      | inr k ↦ elim k [ inl i ↦ inl i | inr i ↦ inr (add_node-IsHeld c m n rest (inr i)) ]
    ])
  ]

  by_column-keeps :
      (m : KubeGraphNode) (ns : List KubeGraphNode) (b : ByColumn)
      → IsHeld m b
      → IsHeld m (by_column columns ns b)
  unfolding by_column
  by_column-keeps m [] b h = h
  by_column-keeps m (n ∷ ns) b h = elim (Option-cases (free_column columns n)) [
    | inl e ↦ rw e (by_column-keeps m ns b h)
    | inr (c, e) ↦ rw e (by_column-keeps m ns (add_node c n b) (add_node-IsHeld c m n b (inr h)))
  ]

  pub by_column-IsHeld :
      (m : KubeGraphNode) (c : ℕ) (ns : List KubeGraphNode) (b : ByColumn)
      → free_column columns m ≡ some c
      → IsNode m ns
      → IsHeld m (by_column columns ns b)
  unfolding by_column
  by_column-IsHeld m c [] b e h = absurd h
  by_column-IsHeld m c (n ∷ ns) b e (inl q) =
      let f : free_column columns n ≡ some c = ap (free_column columns) q ∙ e in
      rw f (by_column-keeps m ns (add_node c n b) (add_node-IsHeld c m n b (inl q)))
  by_column-IsHeld m c (n ∷ ns) b e (inr h) = by_column-IsHeld m c ns _ e h
