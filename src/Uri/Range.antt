-- ===== src/Uri/Range.antt =====
-- What decoding returns is Unicode text again.
use wiremap.Base.{
  ℕ, ◌+◌, ◌-◌, ◌*◌, ◌≡◌, subst, inl, true, not, Option, none, some, List, [], ◌∷◌, Text, All, arith,
  ltb, ◌==◌, nat_eq, if_elim,
}
use mathlib.Core.Option
use wiremap.Uri.{
  IsScalar, between, is_fit, lead, pair_up, hex_value, Token, plain, octet, unescape, Pending, idle,
  wants, decode_from, decode_uri_component, ◌>>=◌,
}

abbrev HoldsScalar : Token → Type 0
HoldsScalar (plain c) = IsScalar c
HoldsScalar (octet b) = Unit

-- A predicate of the value, if there is one.
abbrev Sure {ℓ κ} : {A : Type ℓ} → (A → Type κ) → Option A → Type κ
Sure P none = Unit
Sure P (some a) = P a

Sure-cons {ℓ κ} :
    {A : Type ℓ} (P : A → Type κ) (a : A) (o : Option (List A))
    → P a
    → Sure (All P) o
    → Sure (All P) (Option.map (λ s. a ∷ s) o)
Sure-cons P a none h k = tt
Sure-cons P a (some s) h k = (h, k)

Sure-pair_up :
    (h l : ℕ) (rest : Option (List Token))
    → Sure (All HoldsScalar) rest
    → Sure (All HoldsScalar) (pair_up h l rest)
Sure-pair_up h l none k =
    elim (hex_value h) as (λ x. Sure (All HoldsScalar) (x >>= λ _. hex_value l >>= λ _. none)) [
      | none ↦ tt
      | some x ↦ elim (hex_value l) as (λ y. Sure (All HoldsScalar) (y >>= λ _. none)) [
        | none ↦ tt
        | some y ↦ tt
      ]
    ]
Sure-pair_up h l (some ts) k =
    elim (hex_value h)
      as (λ x.
        Sure (All HoldsScalar) (x >>= λ x'. hex_value l >>= λ y. some (octet (x' * 16 + y) ∷ ts))) [
          | none ↦ tt
          | some x ↦
              elim (hex_value l)
                as (λ y. Sure (All HoldsScalar) (y >>= λ y'. some (octet (x * 16 + y') ∷ ts))) [
                  | none ↦ tt
                  | some y ↦ (tt, k)
                ]
        ]

unescape-Sure : (s : Text) → All IsScalar s → Sure (All HoldsScalar) (unescape s)
unfolding unescape
unescape-Sure [] h = tt
unescape-Sure (c ∷ []) h =
    if_elim (Sure (All HoldsScalar)) (c == b'%') _ _ (λ _. tt) (λ _. (h.0, tt))
unescape-Sure (c ∷ d ∷ []) h =
    if_elim (Sure (All HoldsScalar)) (c == b'%') _ _ (λ _. tt)
      (λ _. Sure-cons HoldsScalar (plain c) _ h.0 (unescape-Sure (d ∷ []) h.1))
unescape-Sure (c ∷ d ∷ l ∷ s) h =
    if_elim (Sure (All HoldsScalar)) (c == b'%') _ _
      (λ _. Sure-pair_up d l (unescape s) (unescape-Sure s h.1.1.1))
      (λ _. Sure-cons HoldsScalar (plain c) _ h.0 (unescape-Sure (d ∷ l ∷ s) h.1))

is_fit-IsScalar : (least v : ℕ) → is_fit least v ≡ true → IsScalar v
is_fit-IsScalar least v h = ground arith

decode_from-Sure :
    (p : Pending) (ts : List Token) → All HoldsScalar ts → Sure (All IsScalar) (decode_from p ts)
unfolding decode_from
decode_from-Sure idle [] h = tt
decode_from-Sure (wants _ _ _) [] h = tt
decode_from-Sure idle (plain c ∷ ts) h = Sure-cons IsScalar c _ h.0 (decode_from-Sure idle ts h.1)
decode_from-Sure (wants _ _ _) (plain c ∷ ts) h = tt
decode_from-Sure idle (octet b ∷ ts) h =
    let start = λ (p : Pending). decode_from-Sure p ts h.1 in
    if_elim (Sure (All IsScalar)) (ltb b 0x80) _ _
      (λ e. Sure-cons IsScalar b _ (inl (ground arith)) (decode_from-Sure idle ts h.1))
      (λ _. elim (lead b) as (λ o. Sure (All IsScalar) (o >>= λ p. decode_from p ts)) [
        | none ↦ tt
        | some p ↦ start p
      ])
decode_from-Sure (wants left least bits) (octet b ∷ ts) h =
    let v = bits * 0x40 + (b - 0x80) in
    if_elim (Sure (All IsScalar)) (not (between 0x80 0xbf b)) _ _ (λ _. tt)
      (λ _.
        if_elim (Sure (All IsScalar)) (ltb 1 left) _ _
          (λ _. decode_from-Sure (wants (left - 1) least v) ts h.1)
          (λ _.
            if_elim (Sure (All IsScalar)) (is_fit least v) _ _
              (λ e.
                Sure-cons IsScalar v _ (is_fit-IsScalar least v e) (decode_from-Sure idle ts h.1))
              (λ _. tt)))

-- A decoded text of Unicode characters holds Unicode characters.
pub decode-IsScalar :
    (s t : Text) → All IsScalar s → decode_uri_component s ≡ some t → All IsScalar t
unfolding decode_uri_component
decode-IsScalar s t h e = subst (Sure (All IsScalar)) e (
    elim (unescape s)
        as (λ o. Sure (All HoldsScalar) o → Sure (All IsScalar) (o >>= decode_from idle)) [
          | none ↦ λ _. tt
          | some ts ↦ λ k. decode_from-Sure idle ts k
        ]
      (unescape-Sure s h))
