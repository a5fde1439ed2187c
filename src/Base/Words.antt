-- ===== src/Base/Words.antt =====
-- Texts: literals, `startsWith`, `split` on one character and `join`.
use Prim.Native.Nat.{ℕ}
use Prim.Native.Char.{code}
use Prim.Native.String.{String}
use mathlib.Core.Path.{◌≡◌, refl}
use mathlib.Core.Logic.{◌≢◌, inl, inr}
use mathlib.Core.Bool.{Bool, true, false, ◌&&◌, ◌||◌}
use mathlib.Core.List.{List, [], ◌∷◌, ◌++◌}
use native.Mathlib.Omega.{arith}
use wiremap.Base.Compare.{Text, same_text, nat_beq, nat_beq_iff, Bool-cases, if◌then◌else◌}
use wiremap.Base.Lists.{All, All-append}

-- The code points of a literal.
abbrev pub codes : String → Text
codes String.[] = []
codes (String.◌∷◌ c s) = code c ∷ codes s

-- `xs.includes(x)`, `new Set(xs).has(x)`.
abbrev pub includes : Text → List Text → Bool
includes x [] = false
includes x (y ∷ ys) = same_text y x || includes x ys

abbrev pub starts_with : Text → Text → Bool
starts_with [] s = true
starts_with (p ∷ ps) [] = false
starts_with (p ∷ ps) (c ∷ s) = nat_beq p c && starts_with ps s

-- `s.includes(pattern)` of texts.
abbrev pub contains : Text → Text → Bool
contains pattern [] = starts_with pattern []
contains pattern (c ∷ s) = starts_with pattern (c ∷ s) || contains pattern s

-- Puts a character in front of the first word.
abbrev pub cons_head : ℕ → List Text → List Text
cons_head c [] = (c ∷ []) ∷ []
cons_head c (w ∷ ws) = (c ∷ w) ∷ ws

-- `s.split(sep)` for a separator of one character: never empty.
unfoldable pub split : ℕ → Text → List Text
split sep [] = [] ∷ []
split sep (c ∷ s) = let rest = split sep s in if nat_beq c sep then [] ∷ rest else cons_head c rest

-- `words.join(sep)` for a separator of one character.
unfoldable pub join : ℕ → List Text → Text
join sep [] = []
join sep (w ∷ []) = w
join sep (w ∷ v ∷ vs) = w ++ (sep ∷ join sep (v ∷ vs))

abbrev pub Lacks : ℕ → Text → Type 0
Lacks sep = All (λ c. c ≢ sep)

module _ (sep : ℕ) where
  pub split-append : (w s : Text) → Lacks sep w → split sep (w ++ (sep ∷ s)) ≡ w ∷ split sep s
  unfolding split
  split-append [] s h = ground arith
  split-append (c ∷ w) s h = rw (split-append w s h.1) (ground arith)

  pub split-eq-singleton : (w : Text) → Lacks sep w → split sep w ≡ w ∷ []
  unfolding split
  split-eq-singleton [] h = refl
  split-eq-singleton (c ∷ w) h = rw (split-eq-singleton w h.1) (ground arith)

  -- Splitting undoes joining, if the words hold no separator.
  pub split-join :
      (w : Text) (ws : List Text)
      → All (Lacks sep) (w ∷ ws)
      → split sep (join sep (w ∷ ws)) ≡ w ∷ ws
  unfolding join
  split-join w [] h = split-eq-singleton w h.0
  split-join w (v ∷ vs) h = rw (split-append w _ h.0, split-join v vs h.1)

  join-cons_head :
      (c : ℕ) (w : Text) (ws : List Text) → join sep ((c ∷ w) ∷ ws) ≡ c ∷ join sep (w ∷ ws)
  unfolding join
  join-cons_head c w [] = refl
  join-cons_head c w (v ∷ vs) = refl

  pub join-nil_cons : (w : Text) (ws : List Text) → join sep ([] ∷ w ∷ ws) ≡ sep ∷ join sep (w ∷ ws)
  unfolding join
  join-nil_cons w ws = refl

  split-cases : (s : Text) → (w : Text) × (ws : List Text) × (split sep s ≡ w ∷ ws)
  unfolding split
  split-cases [] = ([], [], refl)
  split-cases (c ∷ s) =
      let (w, ws, e) = split-cases s in
      rw e
        (elim (nat_beq c sep)
          as (λ b.
            (v : Text) × (vs : List Text) × ((if b then [] ∷ w ∷ ws else (c ∷ w) ∷ ws) ≡ v ∷ vs)) [
              | true ↦ ([], w ∷ ws, refl)
              | false ↦ (c ∷ w, ws, refl)
            ])

  -- Joining undoes splitting.
  pub join-split : (s : Text) → join sep (split sep s) ≡ s
  unfolding split
  join-split [] = unfold join in refl
  join-split (c ∷ s) =
      let (w, ws, e) = split-cases s in
      let ih : join sep (w ∷ ws) ≡ s = rw e at (join-split s) in
      rw e (elim (Bool-cases (nat_beq c sep)) [
        | inl h ↦ rw h (rw (join-nil_cons w ws, ih, (nat_beq_iff c sep).0 h))
        | inr h ↦ rw h (rw (join-cons_head c w ws, ih))
      ])

  -- The words of a split hold no separator.
  pub split-Lacks : (s : Text) → All (Lacks sep) (split sep s)
  unfolding split
  split-Lacks [] = (tt, tt)
  split-Lacks (c ∷ s) =
      let (w, ws, e) = split-cases s in
      let ih : All (Lacks sep) (w ∷ ws) = rw e at (split-Lacks s) in rw e (ground arith)

module _ {ℓ} (P : ℕ → Type ℓ) (sep : ℕ) where
  pub split-All : (s : Text) → All P s → All (All P) (split sep s)
  unfolding split
  split-All [] h = (tt, tt)
  split-All (c ∷ s) h =
      let (w, ws, e) = split-cases sep s in
      let ih : All (All P) (w ∷ ws) = rw e at (split-All s h.1) in
      rw e (elim (nat_beq c sep) as (λ b. All (All P) (if b then [] ∷ w ∷ ws else (c ∷ w) ∷ ws)) [
        | true ↦ (tt, ih)
        | false ↦ ((h.0, ih.0), ih.1)
      ])

  pub join-All : (ws : List Text) → P sep → All (All P) ws → All P (join sep ws)
  unfolding join
  join-All [] p h = tt
  join-All (w ∷ []) p h = h.0
  join-All (w ∷ v ∷ vs) p h = All-append P w _ h.0 (p, join-All (v ∷ vs) p h.1)
