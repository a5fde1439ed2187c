-- ===== src/Panels/Opening.antt =====
-- Which container a pod's panel opens with.
use wiremap.Base.{
  ◌≡◌, ◌∙◌, inl, inr, ◌⊎◌, Bool, true, false, Option, none, some, List, [], ◌∷◌, find, Text, arith,
  Bool-cases, Option-cases, eq_of_some, not_none-some, subst,
}
use wiremap.KubeTypes.{KubeContainer}
use wiremap.Panels.{first_container, is_app, is_called, opened_container}

abbrev pub IsAmong : KubeContainer → List KubeContainer → Type 0
IsAmong c [] = ⊥
IsAmong c (d ∷ ds) = (d ≡ c) ⊎ IsAmong c ds

find-IsAmong :
    (p : KubeContainer → Bool) (cs : List KubeContainer) (c : KubeContainer)
    → find p cs ≡ some c
    → IsAmong c cs × (p c ≡ true)
find-IsAmong p [] c e = absurd (not_none-some e)
find-IsAmong p (d ∷ ds) c e = elim (Bool-cases (p d)) [
  | inl h ↦ let q : d ≡ c = eq_of_some (rw h at e) in (inl q, subst (λ x. p x ≡ true) q h)
  | inr h ↦ let (among, holds) = find-IsAmong p ds c (rw h at e) in (inr among, holds)
]

first-IsAmong :
    (cs : List KubeContainer) (c : KubeContainer) → first_container cs ≡ some c → IsAmong c cs
first-IsAmong [] c e = absurd (not_none-some e)
first-IsAmong (d ∷ ds) c e = inl (eq_of_some e)

-- The panel opens with a container of the pod: the one that was asked for, if the pod has it, else an
-- app container, unless the pod has none of either.
pub opened_container-IsAmong :
    (initial : Option Text) (cs : List KubeContainer) (c : KubeContainer)
    → opened_container initial cs ≡ some c
    → IsAmong c cs
      × ((is_called initial c ≡ true)
          ⊎ ((find (is_called initial) cs ≡ none) × ((c.init ≡ false) ⊎ (find is_app cs ≡ none))))
unfolding opened_container
opened_container-IsAmong initial cs c e = elim (Option-cases (find (is_called initial) cs)) [
  | inr (d, f) ↦
      let (among, holds) = find-IsAmong (is_called initial) cs c (f ∙ (rw f at e)) in
      (among, inl holds)
  | inl f ↦ elim (Option-cases (find is_app cs)) [
    | inr (d, g) ↦
        let (among, holds) = find-IsAmong is_app cs c (g ∙ (rw (f, g) at e)) in
        (among, inr (f, inl (ground (arith, holds))))
    | inl g ↦ (first-IsAmong cs c (rw (f, g) at e), inr (f, inr g))
  ]
]
