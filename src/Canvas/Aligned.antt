-- ===== src/Canvas/Aligned.antt =====
-- Every node without a group is pulled to the line of its column.
use wiremap.Base.{
  ℕ, ◌+◌, ◌≡◌, refl, sym, ap, ◌∙◌, inl, inr, ◌↔◌, some, List, [], ◌∷◌, Text, All, Bool-cases,
  eq_of_some, not_none-some, subst, same_text_iff, ◌==◌, nat_eq, text_eq,
}
use wiremap.KubeTypes.{KubeGraph, KubeGraphNode}
use wiremap.Depth.{Depths, get}
use wiremap.Canvas.{position_at}
use wiremap.Canvas.Ranks.{IsNode}
use wiremap.Canvas.Layout.{
  ByColumn, LayoutTarget, Numbers, Targets, by_column, column_count, column_x, compute_layout,
  free_column, place_columns, stack, ungrouped_columns,
}
use wiremap.Canvas.Entries.{InColumn, IsHeld, by_column-InColumn, by_column-IsHeld, free_column-get}

All-IsNode :
    (P : KubeGraphNode → Type 0) (ns : List KubeGraphNode)
    → ((n : KubeGraphNode) → IsNode n ns → P n)
    → All P ns
All-IsNode P [] h = tt
All-IsNode P (n ∷ ns) h = (h n (inl refl), All-IsNode P ns (λ m k. h m (inr k)))

IsNode-All :
    (P : KubeGraphNode → Type 0) (ns : List KubeGraphNode) (n : KubeGraphNode)
    → All P ns
    → IsNode n ns
    → P n
IsNode-All P [] n a h = absurd h
IsNode-All P (m ∷ ns) n a (inl e) = subst P e a.0
IsNode-All P (m ∷ ns) n a (inr h) = IsNode-All P ns n a.1 h

module _ {N : Type 0} (num : Numbers N) (columns : Depths)
    (by_name : List KubeGraphNode → List KubeGraphNode)
    (keeps : (n : KubeGraphNode) (ns : List KubeGraphNode) → IsNode n (by_name ns) ↔ IsNode n ns)
    (x : ℕ → N) (height : N) where
  -- The target stands on the line of the column of its node.
  abbrev IsOnLine : Text × LayoutTarget N → Type 0
  IsOnLine (id, t) = (c : ℕ) × (get columns id ≡ some c) × (t.x ≡ x c)

  -- A node has a target.
  abbrev HasTarget : Text → Targets num → Type 0
  HasTarget id ts = (t : LayoutTarget N) × (position_at ts id ≡ some t)

  stack-IsOnLine :
      (c : ℕ) (top spacing : N) (i : ℕ) (ns : List KubeGraphNode) (ts : Targets num)
      → All (λ n. get columns n.id ≡ some c) ns
      → All IsOnLine ts
      → All IsOnLine (stack num (x c) top spacing i ns ts)
  stack-IsOnLine c top spacing i [] ts a h = h
  stack-IsOnLine c top spacing i (n ∷ ns) ts a h =
      stack-IsOnLine c top spacing (i + 1) ns _ a.1 ((c, a.0, refl), h)

  place_columns-IsOnLine :
      (b : ByColumn) (ts : Targets num)
      → All (InColumn columns) b
      → All IsOnLine ts
      → All IsOnLine (place_columns num by_name x height b ts)
  unfolding place_columns
  place_columns-IsOnLine [] ts a h = h
  place_columns-IsOnLine ((c, ns) ∷ rest) ts a h = place_columns-IsOnLine rest _ a.1 (
      stack-IsOnLine c _ _ 0 (by_name ns) ts
        (All-IsNode _ (by_name ns) (λ n k. IsNode-All _ ns n a.0 ((keeps n ns).0 k))) h)

  position_at-IsOnLine :
      (id : Text) (t : LayoutTarget N) (ts : Targets num)
      → All IsOnLine ts
      → position_at ts id ≡ some t
      → IsOnLine (id, t)
  position_at-IsOnLine id t [] a e = absurd (not_none-some e)
  position_at-IsOnLine id t ((k, p) ∷ ts) a e = elim (Bool-cases (k == id)) [
    | inl q ↦
        let same : k ≡ id = (same_text_iff k id).0 q in
        let found : p ≡ t = eq_of_some (rw q at e) in
        subst (λ i. IsOnLine (i, t)) same (subst (λ u. IsOnLine (k, u)) found a.0)
    | inr q ↦ position_at-IsOnLine id t ts a.1 (rw q at e)
  ]

  cons-HasTarget :
      (id k : Text) (p : LayoutTarget N) (ts : Targets num)
      → HasTarget id ts
      → HasTarget id ((k, p) ∷ ts)
  cons-HasTarget id k p ts (t, e) = elim (Bool-cases (k == id)) [
    | inl q ↦ (p, rw q refl)
    | inr q ↦ (t, rw q e)
  ]

  own-HasTarget :
      (id k : Text) (p : LayoutTarget N) (ts : Targets num) → k ≡ id → HasTarget id ((k, p) ∷ ts)
  own-HasTarget id k p ts e = (p, rw ((same_text_iff k id).1 e) refl)

  stack-HasTarget :
      (id : Text) (x top spacing : N) (i : ℕ) (ns : List KubeGraphNode) (ts : Targets num)
      → HasTarget id ts
      → HasTarget id (stack num x top spacing i ns ts)
  stack-HasTarget id x top spacing i [] ts h = h
  stack-HasTarget id x top spacing i (n ∷ ns) ts h =
      stack-HasTarget id x top spacing (i + 1) ns _ (cons-HasTarget id n.id _ ts h)

  stack-own :
      (m : KubeGraphNode) (x top spacing : N) (i : ℕ) (ns : List KubeGraphNode) (ts : Targets num)
      → IsNode m ns
      → HasTarget m.id (stack num x top spacing i ns ts)
  stack-own m x top spacing i [] ts h = absurd h
  stack-own m x top spacing i (n ∷ ns) ts (inl e) =
      stack-HasTarget m.id x top spacing (i + 1) ns _
        (own-HasTarget m.id n.id _ ts (ap (λ (k : KubeGraphNode). k.id) e))
  stack-own m x top spacing i (n ∷ ns) ts (inr h) = stack-own m x top spacing (i + 1) ns _ h

  place_columns-keeps :
      (id : Text) (b : ByColumn) (ts : Targets num)
      → HasTarget id ts
      → HasTarget id (place_columns num by_name x height b ts)
  unfolding place_columns
  place_columns-keeps id [] ts h = h
  place_columns-keeps id ((c, ns) ∷ rest) ts h =
      place_columns-keeps id rest _ (stack-HasTarget id (x c) _ _ 0 (by_name ns) ts h)

  place_columns-own :
      (m : KubeGraphNode) (b : ByColumn) (ts : Targets num)
      → IsHeld columns m b
      → HasTarget m.id (place_columns num by_name x height b ts)
  unfolding place_columns
  place_columns-own m [] ts h = absurd h
  place_columns-own m ((c, ns) ∷ rest) ts (inl h) =
      place_columns-keeps m.id rest _ (stack-own m (x c) _ _ 0 (by_name ns) ts ((keeps m ns).1 h))
  place_columns-own m ((c, ns) ∷ rest) ts (inr h) = place_columns-own m rest _ h

-- Let sorting by name keep the members of a list. Each node of the graph that has no group but a
-- column is pulled to a target on the line of that column, whatever the sizes, the numbers and the
-- other nodes are.
pub compute_layout-on_line :
    {N : Type 0} (num : Numbers N) (columns : Depths)
    (by_name : List KubeGraphNode → List KubeGraphNode)
    (keeps : (n : KubeGraphNode) (ns : List KubeGraphNode) → IsNode n (by_name ns) ↔ IsNode n ns)
    (ceil_sqrt : ℕ → ℕ) (g : KubeGraph) (width height : N) (n : KubeGraphNode) (c : ℕ)
    → IsNode n g.nodes
    → free_column columns n ≡ some c
    → (t : LayoutTarget N) × (position_at
          (compute_layout num by_name ceil_sqrt columns g width height).targets
          n.id
        ≡ some t)
      × (t.x ≡ column_x num (column_count (ungrouped_columns columns g.nodes) g.groups) width c)
unfolding compute_layout
compute_layout-on_line num columns by_name keeps ceil_sqrt g width height n c h e =
    let x = column_x num (column_count (ungrouped_columns columns g.nodes) g.groups) width in
    let b = by_column columns g.nodes [] in
    let (t, found) =
      place_columns-own num columns by_name keeps x height n b []
        (by_column-IsHeld columns n c g.nodes [] e h) in
    let (d, own, line) =
      position_at-IsOnLine num columns by_name keeps x height n.id t
        (place_columns num by_name x height b [])
        (place_columns-IsOnLine num columns by_name keeps x height b []
          (by_column-InColumn columns g.nodes [] tt) tt)
        found in
    (t, found, line ∙ ap x (eq_of_some (sym own ∙ free_column-get columns n c e)))
