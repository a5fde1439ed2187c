-- ===== src/Canvas/Placing.antt =====
-- The positions that outlive a graph.
use wiremap.Base.{
  ◌≡◌, refl, sym, ap, ◌∙◌, inl, inr, ◌⊎◌, true, false, Option, none, some, List, [], ◌∷◌, map, Text,
  not_none-some, Distinct, includes, same_text, same_text_iff, arith, text_eq,
}
use wiremap.KubeTypes.{KubeGraphNode}
use wiremap.Canvas.{Placed, Positions, placed, position_at, save_positions}

module _ {P : Type 0} where
  abbrev pub placed_ids : List (Placed P) → List Text
  placed_ids = map (λ (n : Placed P). n.node.id)

  abbrev pub IsPlaced : Placed P → List (Placed P) → Type 0
  IsPlaced n [] = ⊥
  IsPlaced n (m ∷ ms) = (m ≡ n) ⊎ IsPlaced n ms

  includes-placed :
      (n : Placed P) (ns : List (Placed P))
      → IsPlaced n ns
      → includes n.node.id (placed_ids ns) ≡ true
  includes-placed n [] h = absurd h
  includes-placed n (m ∷ ms) (inl e) =
      rw ((same_text_iff m.node.id n.node.id).1 (ap (λ (x : Placed P). x.node.id) e)) refl
  includes-placed n (m ∷ ms) (inr h) = rw (includes-placed n ms h) (ground arith)

  abbrev saved_one : Placed P → Positions P → Positions P
  saved_one n saved = elim n.position [ none ↦ saved | some p ↦ (n.node.id, p) ∷ saved ]

  saved_one-other :
      (n : Placed P) (saved : Positions P) (x : Text)
      → same_text n.node.id x ≡ false
      → position_at (saved_one n saved) x ≡ position_at saved x
  saved_one-other n saved x h =
      elim n.position
        as (λ (o : Option P).
          position_at (elim o [ none ↦ saved | some p ↦ (n.node.id, p) ∷ saved ]) x
          ≡ position_at saved x) [ none ↦ refl | some p ↦ rw h refl ]

  saved_one-own :
      (n : Placed P) (saved : Positions P) (p : P)
      → n.position ≡ some p
      → position_at (saved_one n saved) n.node.id ≡ some p
  saved_one-own n saved p =
      elim n.position
        as (λ (o : Option P).
          o ≡ some p
          → position_at (elim o [ none ↦ saved | some p ↦ (n.node.id, p) ∷ saved ]) n.node.id
            ≡ some p) [
              | none ↦ λ e. absurd (not_none-some e)
              | some q ↦ λ e. rw ((same_text_iff n.node.id n.node.id).1 refl) e
            ]

  save_positions-absent :
      (ns : List (Placed P)) (saved : Positions P) (x : Text)
      → includes x (placed_ids ns) ≡ false
      → position_at (save_positions ns saved) x ≡ position_at saved x
  unfolding save_positions
  save_positions-absent [] saved x h = refl
  save_positions-absent (n ∷ ns) saved x h =
      save_positions-absent ns (saved_one n saved) x (ground (arith, h))
      ∙ saved_one-other n saved x (ground (arith, h))

  -- Let the nodes that are drawn have distinct ids, and let one of them have a position when the
  -- positions are saved. Whatever was saved before, a node of the next graph with its id is placed
  -- there again.
  pub placed-save_positions :
      (ns : List (Placed P)) (saved : Positions P) (n : Placed P) (p : P) (next : KubeGraphNode)
      → Distinct (placed_ids ns)
      → IsPlaced n ns
      → n.position ≡ some p
      → next.id ≡ n.node.id
      → (placed (save_positions ns saved) next).position ≡ some p
  unfolding placed save_positions
  placed-save_positions [] saved n p next d h e q = absurd h
  placed-save_positions (m ∷ ms) saved n p next d (inl k) e q =
      ap (position_at (save_positions ms (saved_one m saved)))
        (q ∙ sym (ap (λ (x : Placed P). x.node.id) k))
      ∙ save_positions-absent ms (saved_one m saved) m.node.id d.0
      ∙ saved_one-own m saved p (ap (λ (x : Placed P). x.position) k ∙ e)
  placed-save_positions (m ∷ ms) saved n p next d (inr k) e q =
      placed-save_positions ms (saved_one m saved) n p next d.1 k e q
