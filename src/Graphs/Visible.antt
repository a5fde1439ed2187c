-- ===== src/Graphs/Visible.antt =====
-- The visible part of a graph, KubeDashboard.vm.ts.
use wiremap.Base.{
  includes-append, text_eq, ◌≡◌, refl, inl, inr, Bool, true, false, ◌&&◌, ◌||◌, List, [], ◌∷◌, keep,
  arith, Text, All, includes, Bool-cases, same_text, same_text_iff, subst,
}
use wiremap.Graphs.{Category, hidden_kinds, config_kinds, security_kinds}

module _ {ℓ} {A : Type ℓ} where
  pub All-keep : (p : A → Bool) (xs : List A) → All (λ x. p x ≡ true) (keep p xs)
  All-keep p [] = tt
  All-keep p (x ∷ xs) = elim (Bool-cases (p x)) [
    | inl e ↦ rw e (rw e refl, All-keep p xs)
    | inr e ↦ rw e (All-keep p xs)
  ]

  pub All-imp {κ ρ} :
      {P : A → Type κ} {Q : A → Type ρ}
      → ((x : A) → P x → Q x)
      → (xs : List A) → All P xs
      → All Q xs
  All-imp f [] h = tt
  All-imp f (x ∷ xs) h = (f x h.0, All-imp f xs h.1)

config_apart : All (λ y. includes y security_kinds ≡ false) config_kinds
unfolding same_text
config_apart = (refl, (refl, (refl, (refl, (refl, (refl, (refl, tt)))))))

apart :
    (x : Text) (xs ys : List Text)
    → All (λ y. includes y ys ≡ false) xs
    → includes x xs && includes x ys ≡ false
apart x [] ys h = refl
apart x (y ∷ xs) ys h = elim (Bool-cases (same_text y x)) [
  | inl e ↦ rw (subst (λ z. includes z ys ≡ false) ((same_text_iff y x).0 e) h.0) (ground arith)
  | inr e ↦ rw e (apart x xs ys h.1)
]

-- A kind is hidden under "workloads" exactly if it is hidden under "config" or under "security", and
-- no kind is hidden under both of these.
pub hidden_kinds-split :
    (kind : Text)
    → (includes kind (hidden_kinds Category.workloads)
        ≡ includes kind (hidden_kinds Category.security)
          || includes kind (hidden_kinds Category.config))
      × (includes kind (hidden_kinds Category.security)
            && includes kind (hidden_kinds Category.config)
          ≡ false)
unfolding hidden_kinds
hidden_kinds-split kind = (
  includes-append kind config_kinds security_kinds,
  apart kind config_kinds security_kinds config_apart,
)
