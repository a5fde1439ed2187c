-- ===== src/Uri/Form.antt =====
-- The query of a URL: what `URLSearchParams` writes, and how a server reads it by the URL standard.
use wiremap.Base.{
  ℕ, ◌<◌, ◌/◌, ◌%◌, ◌≡◌, ◌≢◌, refl, sym, ap, ◌∙◌, inl, inr, Bool, true, false, ◌||◌, Option, none,
  some, List, [], ◌∷◌, ◌++◌, map, Text, All, All-append, Lacks, if◌then◌else◌, arith, ◌==◌, nat_eq,
  Bool-cases, if_elim, split, join,
}
use wiremap.Base.Compare.{nat_beq_iff}
use mathlib.Core.List.{map-append}
use wiremap.Uri.{
  IsScalar, Token, between, decode_from, decode_uri_component, escape, escape_all, hex_digit, idle,
  octet, plain, unescape, utf8, ◌>>=◌,
}
use wiremap.Uri.Laws.{decode_from-utf8, unescape-escape_all, unescape-plain, utf8-lt}

-- The characters that are left as they are: letters, digits and *-._
unfoldable pub is_form_safe : ℕ → Bool
is_form_safe c =
    between b'a' b'z' c
    || between b'A' b'Z' c
    || between b'0' b'9' c
    || c == b'*'
    || c == b'-'
    || c == b'.'
    || c == b'_'

unfoldable pub form_char : ℕ → Text
unfolding is_form_safe utf8 escape_all
form_char c = if c == 32 then b'+' ∷ [] else if is_form_safe c then c ∷ [] else escape_all (utf8 c)

unfoldable pub form_encode : Text → Text
unfolding form_char
form_encode [] = []
form_encode (c ∷ s) = form_char c ++ form_encode s

unfoldable pub to_field : Text × Text → Text
unfolding form_encode
to_field (key, value) = form_encode key ++ (b'=' ∷ form_encode value)

-- `new URLSearchParams(fields).toString()`.
unfoldable pub to_query : List (Text × Text) → Text
unfolding to_field join
to_query fields = join b'&' (map to_field fields)

abbrev space_of : ℕ → ℕ
space_of c = if c == b'+' then 32 else c

-- `+` is a space, and an escape is an octet.
unfoldable pub form_decode : Text → Option Text
unfolding decode_uri_component
form_decode s = decode_uri_component (map space_of s)

abbrev pub field_of : List Text → Option (Text × Text)
field_of (key ∷ value ∷ []) = form_decode key >>= λ k. form_decode value >>= λ v. some (k, v)
field_of _ = none

abbrev pub collect : List Text → Option (List (Text × Text))
collect [] = some []
collect (piece ∷ pieces) =
    field_of (split b'=' piece) >>= λ field. collect pieces >>= λ rest. some (field ∷ rest)

-- The fields of a query that has some; one that is malformed is refused.
unfoldable pub parse_query : Text → Option (List (Text × Text))
unfolding split form_decode
parse_query query = collect (split b'&' query)

hex_digit-safe :
    (n : ℕ) → n < 16 → (is_form_safe (hex_digit n) ≡ true) × (space_of (hex_digit n) ≡ hex_digit n)
unfolding hex_digit is_form_safe
hex_digit-safe n h = ground arith

safe-ne : (c : ℕ) → is_form_safe c ≡ true → (c ≢ b'%') × (space_of c ≡ c)
unfolding is_form_safe
safe-ne c h = ground arith

map-escape_all :
    (bs : List ℕ) → All (λ b. b < 256) bs → map space_of (escape_all bs) ≡ escape_all bs
unfolding escape_all escape
map-escape_all [] h = refl
map-escape_all (b ∷ bs) h =
    rw
      (
        (hex_digit-safe (b / 16) (omega arith)).1,
        (hex_digit-safe (b % 16) (omega arith)).1,
        map-escape_all bs h.1,
      )
      refl

-- The tokens of an encoded text once the plus signs are spaces.
form_tokens : ℕ → List Token
form_tokens c =
    if c == 32 then plain c ∷ [] else if is_form_safe c then plain c ∷ [] else map octet (utf8 c)

all_tokens : Text → List Token
all_tokens [] = []
all_tokens (c ∷ s) = form_tokens c ++ all_tokens s

unescape-form_char :
    (c : ℕ) (s : Text) (ts : List Token)
    → IsScalar c
    → unescape (map space_of s) ≡ some ts
    → unescape (map space_of (form_char c ++ s)) ≡ some (form_tokens c ++ ts)
unfolding form_char form_tokens
unescape-form_char c s ts h e = elim (Bool-cases (c == 32)) [
  | inl space ↦ rw space (
      unescape-plain 32 _ ts (ground arith) e
      ∙ ap (λ x. some (plain x ∷ ts)) (sym ((nat_beq_iff c 32).0 space)))
  | inr other ↦ rw other (elim (Bool-cases (is_form_safe c)) [
    | inl kept ↦ rw (kept, (safe-ne c kept).1) (unescape-plain c _ ts (safe-ne c kept).0 e)
    | inr o ↦
        rw (o, map-append space_of (escape_all (utf8 c)) s, map-escape_all (utf8 c) (utf8-lt c h))
          (unescape-escape_all (utf8 c) _ ts (utf8-lt c h) e)
  ])
]

unescape-form_encode :
    (s : Text) → All IsScalar s → unescape (map space_of (form_encode s)) ≡ some (all_tokens s)
unfolding form_encode all_tokens unescape
unescape-form_encode [] h = refl
unescape-form_encode (c ∷ s) h = unescape-form_char c _ _ h.0 (unescape-form_encode s h.1)

decode_from-form_tokens :
    (c : ℕ) (ts : List Token) (s : Text)
    → IsScalar c
    → decode_from idle ts ≡ some s
    → decode_from idle (form_tokens c ++ ts) ≡ some (c ∷ s)
unfolding form_tokens
decode_from-form_tokens c ts s h e =
    if_elim (λ t. decode_from idle (t ++ ts) ≡ some (c ∷ s)) (c == 32) _ _
      (λ space. unfold decode_from in rw e)
      (λ other.
        if_elim (λ t. decode_from idle (t ++ ts) ≡ some (c ∷ s)) (is_form_safe c) _ _
          (λ kept. unfold decode_from in rw e) (λ o. decode_from-utf8 c ts s h e))

decode_from-all_tokens : (s : Text) → All IsScalar s → decode_from idle (all_tokens s) ≡ some s
unfolding all_tokens decode_from
decode_from-all_tokens [] h = refl
decode_from-all_tokens (c ∷ s) h =
    decode_from-form_tokens c (all_tokens s) s h.0 (decode_from-all_tokens s h.1)

pub form_decode-form_encode : (s : Text) → All IsScalar s → form_decode (form_encode s) ≡ some s
unfolding form_decode decode_uri_component
form_decode-form_encode s h = rw (unescape-form_encode s h) (decode_from-all_tokens s h)

-- A character that the encoding of a value does not write.
module _ (x : ℕ) (special : is_form_safe x ≡ false) (other : (x ≢ b'%') × (x ≢ b'+')) where
  safe-other : (c : ℕ) → is_form_safe c ≡ true → c ≢ x
  safe-other c h e = absurd (ground (arith, sym h ∙ ap is_form_safe e ∙ special))

  escape_all-Lacks_safe : (bs : List ℕ) → All (λ b. b < 256) bs → Lacks x (escape_all bs)
  unfolding escape_all escape
  escape_all-Lacks_safe [] h = tt
  escape_all-Lacks_safe (b ∷ bs) h = (
    λ e. other.0 (sym e),
    (
      safe-other _ (hex_digit-safe (b / 16) (omega arith)).0,
      (safe-other _ (hex_digit-safe (b % 16) (omega arith)).0, escape_all-Lacks_safe bs h.1),
    ),
  )

  pub form_encode-Lacks : (s : Text) → All IsScalar s → Lacks x (form_encode s)
  unfolding form_encode form_char
  form_encode-Lacks [] h = tt
  form_encode-Lacks (c ∷ s) h =
      All-append _ _ _
        (if_elim (Lacks x) (c == 32) _ _ (λ space. (λ e. other.1 (sym e), tt))
          (λ o.
            if_elim (Lacks x) (is_form_safe c) _ _ (λ kept. (safe-other c kept, tt))
              (λ p. escape_all-Lacks_safe (utf8 c) (utf8-lt c h.0))))
        (form_encode-Lacks s h.1)
