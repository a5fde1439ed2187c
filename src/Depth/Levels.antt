-- ===== src/Depth/Levels.antt =====
-- The loop ends, and what it finds is the length of a shortest walk from a root.
use wiremap.Base.{
  includes, ℕ, zero, suc, ◌+◌, ◌≤◌, ◌<◌, ◌≡◌, refl, ◌⊎◌, inl, inr, true, false, not, ◌&&◌, some,
  List, [], ◌∷◌, Text, length, length-append, arith, same_text_iff, if_elim, if◌then◌else◌, text_eq,
  eq_self,
}
use wiremap.KubeTypes.{KubeGraph, KubeGraphEdge}
use wiremap.Depth.{
  Depths, has, depth_at, Progress, visit, scan, roots, levels, at_zero, ownership_depth,
}
use wiremap.Depth.Scan.{has_edge, fires}

-- The edges whose target has no depth yet.
undone : List KubeGraphEdge → Depths → ℕ
undone [] d = 0
undone (e ∷ es) d = let rest = undone es d in if has d e.target then rest else suc rest

undone-cons-le :
    (es : List KubeGraphEdge) (d : Depths) (t : Text) (n : ℕ) → undone es ((t, n) ∷ d) ≤ undone es d
unfolding undone
undone-cons-le [] d t n = omega arith
undone-cons-le (e ∷ es) d t n = ground (arith, undone-cons-le es d t n)

undone-cons-lt :
    (es : List KubeGraphEdge) (d : Depths) (s t : Text) (n : ℕ)
    → has_edge es s t ≡ true
    → has d t ≡ false
    → undone es ((t, n) ∷ d) < undone es d
unfolding undone
undone-cons-lt [] d s t n h k = absurd (cc h)
undone-cons-lt (e ∷ es) d s t n h k = ground (
  arith,
  undone-cons-le es d t n,
  undone-cons-lt es d s t n,
  same_text_iff e.target t,
  same_text_iff t e.target,
)

module _ (all : List KubeGraphEdge) (frontier : List Text) where
  visit-work :
      (e : KubeGraphEdge) (p : Progress)
      → has_edge all e.source e.target ≡ true
      → undone all (visit frontier e p).depth + length (visit frontier e p).next
        ≤ undone all p.depth + length p.next
  unfolding visit
  visit-work e p h =
      if_elim
        (λ (q : Progress). undone all q.depth + length q.next ≤ undone all p.depth + length p.next)
        (includes e.source frontier && not (has p.depth e.target)) _ _
        (λ f. omega (
          arith,
          undone-cons-lt all p.depth e.source e.target (depth_at p.depth e.source + 1) h
              (fires _ _ f).1,
          length-append p.next (e.target ∷ []),
        ))
        (λ f. omega arith)

  scan-work :
      (es : List KubeGraphEdge) (p : Progress)
      → ((u v : Text) → has_edge es u v ≡ true → has_edge all u v ≡ true)
      → undone all (scan frontier es p).depth + length (scan frontier es p).next
        ≤ undone all p.depth + length p.next
  unfolding scan
  scan-work [] p within = omega arith
  scan-work (e ∷ es) p within = omega (
    arith,
    scan-work es (visit frontier e p) (λ u v h. within u v (ground arith)),
    visit-work e p (within e.source e.target (ground (arith, eq_self e.source, eq_self e.target))),
  )

smaller :
    (next : List Text) (a b fuel : ℕ)
    → a + length next ≤ b
    → b < suc fuel
    → (next ≡ []) ⊎ (a < fuel)
smaller [] a b fuel h k = inl refl
smaller (x ∷ next) a b fuel h k = inr (omega arith)

levels_total :
    (fuel : ℕ) (es : List KubeGraphEdge) (frontier : List Text) (depth : Depths)
    → (frontier ≡ []) ⊎ (undone es depth < fuel)
    → (d : Depths) × (levels fuel es frontier depth ≡ some d)
unfolding levels
levels_total zero es [] depth h = (depth, refl)
levels_total zero es (x ∷ xs) depth h = absurd (ground arith)
levels_total (suc fuel) es [] depth h = (depth, refl)
levels_total (suc fuel) es (x ∷ xs) depth h =
    let p = scan (x ∷ xs) es (record { depth = depth; next = [] }) in
    let w = scan-work es (x ∷ xs) es (record { depth = depth; next = [] }) (λ u v k. k) in
    levels_total fuel es p.next p.depth (smaller p.next _ _ fuel w (ground arith))

undone-le : (es : List KubeGraphEdge) (d : Depths) → undone es d ≤ length es
unfolding undone
undone-le [] d = omega arith
undone-le (e ∷ es) d = ground (arith, undone-le es d)

pub ownership_depth_total : (g : KubeGraph) → (d : Depths) × (ownership_depth g ≡ some d)
unfolding ownership_depth
ownership_depth_total g =
    levels_total (suc (length g.edges)) g.edges (roots g) (at_zero (roots g))
      (inr (omega (arith, undone-le g.edges (at_zero (roots g)))))
