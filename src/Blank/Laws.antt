-- ===== src/Blank/Laws.antt =====
-- `trim` on a text with spaces around it.
use wiremap.Base.{
  ◌≡◌, refl, sym, ap, ◌∙◌, ◌⊎◌, inl, inr, true, false, [], ◌∷◌, ◌++◌, append-nil, Text, All,
}
use mathlib.Core.List.{reverse, reverse_aux, reverse-append, reverse-reverse}
use wiremap.Blank.{is_space, trim, trim_start, starts_with_space}

abbrev pub Spaces : Text → Type 0
Spaces = All (λ c. is_space c ≡ true)

abbrev pub IsWord : Text → Type 0
IsWord = All (λ c. is_space c ≡ false)

-- No space at either end.
pub record IsTight (s : Text) : Type 0 where
  pub first : starts_with_space s ≡ false
  pub last : starts_with_space (reverse s) ≡ false

Spaces-reverse_aux : (s t : Text) → Spaces s → Spaces t → Spaces (reverse_aux s t)
Spaces-reverse_aux [] t h k = k
Spaces-reverse_aux (c ∷ s) t h k = Spaces-reverse_aux s (c ∷ t) h.1 (h.0, k)

trim_start-append : (f s : Text) → Spaces f → trim_start (f ++ s) ≡ trim_start s
unfolding trim_start
trim_start-append [] s h = refl
trim_start-append (c ∷ f) s h = rw (h.0, trim_start-append f s h.1)

trim_start_tight : (s : Text) → starts_with_space s ≡ false → trim_start s ≡ s
unfolding trim_start
trim_start_tight [] h = refl
trim_start_tight (c ∷ s) h = rw h

trim_start_front :
    (s back : Text)
    → starts_with_space s ≡ false
    → Spaces back
    → (reverse (trim_start (s ++ back)) ≡ reverse back ++ reverse s)
      ⊎ ((s ≡ []) × (trim_start (s ++ back) ≡ []))
trim_start_front [] back h b = inr (
  refl,
  ap trim_start (sym (append-nil back)) ∙ trim_start-append back [] b ∙ trim_start_tight [] refl,
)
trim_start_front (c ∷ s) back h b =
    inl (ap reverse (trim_start_tight (c ∷ (s ++ back)) h) ∙ reverse-append (c ∷ s) back)

-- The spaces around a text are removed, and those inside it are kept.
pub trim-append :
    (front s back : Text) → IsTight s → Spaces front → Spaces back → trim (front ++ (s ++ back)) ≡ s
unfolding trim
trim-append front s back t f b =
    rw (trim_start-append front (s ++ back) f) (elim (trim_start_front s back t.first b) [
      | inl e ↦
          rw
            (
              e,
              trim_start-append (reverse back) (reverse s) (Spaces-reverse_aux back [] b tt),
              trim_start_tight (reverse s) t.last,
            )
            (reverse-reverse s)
      | inr (e, k) ↦ rw (k, e) (unfold trim_start in refl)
    ])
