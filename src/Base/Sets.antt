-- ===== src/Base/Sets.antt =====
-- Lists in which no text stands twice, as sets of texts are modelled.
use mathlib.Core.Path.{◌≡◌, refl, sym, ap, subst}
use mathlib.Core.Logic.{inl, inr}
use mathlib.Core.Bool.{Bool, true, false, ◌||◌}
use mathlib.Core.List.{List, [], ◌∷◌, ◌++◌}
use native.Mathlib.Omega.{arith}
use wiremap.Base.Compare.{Text, same_text, same_text_iff, Bool-cases}
use wiremap.Base.Lists.{All, keep}
use wiremap.Base.Words.{includes}

-- No text stands in the list twice.
abbrev pub Distinct : List Text → Type 0
Distinct [] = Unit
Distinct (x ∷ xs) = (includes x xs ≡ false) × Distinct xs

pub same_text_sym : (s t : Text) → same_text t s ≡ false → same_text s t ≡ false
same_text_sym s t h = ground (arith, same_text_iff s t, same_text_iff t s)

pub includes-append :
    (x : Text) (xs ys : List Text) → includes x (xs ++ ys) ≡ includes x xs || includes x ys
includes-append x [] ys = refl
includes-append x (y ∷ xs) ys = ground (arith, includes-append x xs ys)

module _ (p : Text → Bool) where
  pub includes-keep :
      (x : Text) (xs : List Text) → p x ≡ true → includes x (keep p xs) ≡ includes x xs
  includes-keep x [] h = refl
  includes-keep x (y ∷ xs) h = elim (Bool-cases (same_text y x)) [
    | inl e ↦ rw (subst (λ z. p z ≡ true) (sym ((same_text_iff y x).0 e)) h, e) refl
    | inr e ↦ elim (Bool-cases (p y)) [
      | inl k ↦ rw (k, e) (includes-keep x xs h)
      | inr k ↦ rw (k, e) (includes-keep x xs h)
    ]
  ]

  differ : (x y : Text) → p x ≡ false → p y ≡ true → same_text y x ≡ false
  differ x y h k = elim (Bool-cases (same_text y x)) [
    | inl e ↦ absurd (ground (arith, h, k, ap p ((same_text_iff y x).0 e)))
    | inr e ↦ e
  ]

  pub includes-dropped : (x : Text) (xs : List Text) → p x ≡ false → includes x (keep p xs) ≡ false
  includes-dropped x [] h = refl
  includes-dropped x (y ∷ xs) h = elim (Bool-cases (p y)) [
    | inl k ↦ rw (k, differ x y h k) (includes-dropped x xs h)
    | inr k ↦ rw k (includes-dropped x xs h)
  ]

  pub includes-kept :
      (x : Text) (xs : List Text) → includes x xs ≡ false → includes x (keep p xs) ≡ false
  includes-kept x [] h = refl
  includes-kept x (y ∷ xs) h = ground (arith, includes-kept x xs)

  pub Distinct-keep : (xs : List Text) → Distinct xs → Distinct (keep p xs)
  Distinct-keep [] d = tt
  Distinct-keep (x ∷ xs) d = elim (Bool-cases (p x)) [
    | inl e ↦ rw e (includes-kept x xs d.0, Distinct-keep xs d.1)
    | inr e ↦ rw e (Distinct-keep xs d.1)
  ]

pub Distinct-append :
    (xs ys : List Text)
    → Distinct xs
    → Distinct ys
    → All (λ x. includes x ys ≡ false) xs
    → Distinct (xs ++ ys)
Distinct-append [] ys d e h = e
Distinct-append (x ∷ xs) ys d e h =
    (ground (arith, includes-append x xs ys, d.0, h.0), Distinct-append xs ys d.1 e h.1)
