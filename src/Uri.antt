-- ===== src/Uri.antt =====
-- The language's `encodeURIComponent` and `decodeURIComponent`, over lists of code points: texts
-- without lone surrogates, which is all that a hash or a name of the cluster's API holds.
pub mod Laws
pub mod Range
pub mod Form
pub mod Query
use wiremap.Base.{
  ℕ, ◌+◌, ◌-◌, ◌*◌, ◌/◌, ◌%◌, ◌≤◌, ◌<◌, ◌⊎◌, Bool, true, false, not, ◌&&◌, ◌||◌, Option, none, some,
  List, [], ◌∷◌, ◌++◌, map, Text, codes, ltb, leb, ◌==◌, nat_eq, if◌then◌else◌,
}
use mathlib.Core.Option

-- A Unicode scalar value.
abbrev pub IsScalar : ℕ → Type 0
IsScalar c = (c < 0xd800) ⊎ ((0xe000 ≤ c) × (c < 0x110000))

abbrev between : ℕ → ℕ → ℕ → Bool
between lo hi c = leb lo c && leb c hi

-- The characters that are left as they are: letters, digits and -_.!~*'().
unfoldable pub is_unreserved : ℕ → Bool
is_unreserved c =
    between b'a' b'z' c
    || between b'A' b'Z' c
    || between b'0' b'9' c
    || c == b'-'
    || c == b'_'
    || c == b'.'
    || c == b'!'
    || c == b'~'
    || between 0x27 0x2a c

unfoldable pub utf8 : ℕ → List ℕ
utf8 c =
    if ltb c 0x80
    then c ∷ []
    else if ltb c 0x800
    then (0xc0 + c / 0x40) ∷ (0x80 + c % 0x40) ∷ []
    else if ltb c 0x10000
    then (0xe0 + c / 0x1000) ∷ (0x80 + c / 0x40 % 0x40) ∷ (0x80 + c % 0x40) ∷ []
    else (0xf0 + c / 0x40000)
      ∷ (0x80 + c / 0x1000 % 0x40)
      ∷ (0x80 + c / 0x40 % 0x40)
      ∷ (0x80 + c % 0x40)
      ∷ []

unfoldable pub hex_digit : ℕ → ℕ
hex_digit n = if ltb n 10 then b'0' + n else b'A' + (n - 10)

unfoldable pub escape : ℕ → Text
unfolding hex_digit
escape b = b'%' ∷ hex_digit (b / 16) ∷ hex_digit (b % 16) ∷ []

unfoldable pub escape_all : List ℕ → Text
unfolding escape
escape_all [] = []
escape_all (b ∷ bs) = escape b ++ escape_all bs

unfoldable pub encode_char : ℕ → Text
unfolding is_unreserved utf8 escape_all
encode_char c = if is_unreserved c then c ∷ [] else escape_all (utf8 c)

unfoldable pub encode_uri_component : Text → Text
unfolding encode_char
encode_uri_component [] = []
encode_uri_component (c ∷ s) = encode_char c ++ encode_uri_component s

unfoldable pub hex_value : ℕ → Option ℕ
hex_value c =
    if between b'0' b'9' c
    then some (c - b'0')
    else if between b'A' b'F' c
    then some (c - b'A' + 10)
    else if between b'a' b'f' c
    then some (c - b'a' + 10)
    else none

-- A character as it stands, or the octet of an escape.
pub data Token : Type 0 where
  plain octet : ℕ → Token

infixl 5 ◌>>=◌
abbrev pub ◌>>=◌ {ℓ κ} : {A : Type ℓ} {B : Type κ} → Option A → (A → Option B) → Option B
none >>= k = none
some a >>= k = k a

abbrev pair_up : ℕ → ℕ → Option (List Token) → Option (List Token)
pair_up h l rest = do x ← hex_value h; y ← hex_value l; ts ← rest; some (octet (x * 16 + y) ∷ ts)

-- The escapes of a text; `none` is a malformed one.
unfoldable pub unescape : Text → Option (List Token)
unfolding hex_value
unescape [] = some []
unescape (c ∷ []) = if c == b'%' then none else some (plain c ∷ [])
unescape (c ∷ h ∷ []) =
    let rest = unescape (h ∷ []) in if c == b'%' then none else Option.map (λ ts. plain c ∷ ts) rest
unescape (c ∷ h ∷ l ∷ s) =
    let escaped = pair_up h l (unescape s) in
    let kept = Option.map (λ ts. plain c ∷ ts) (unescape (h ∷ l ∷ s)) in
    if c == b'%' then escaped else kept

-- Between characters, or with octets still to come: how many, the least value that this length may
-- hold, and the bits so far.
pub data Pending : Type 0 where
  idle : Pending
  wants : (left least bits : ℕ) → Pending

-- The first octet of a sequence: a character, or the start of a longer sequence.
abbrev lead : ℕ → Option Pending
lead b =
    if between 0xc0 0xdf b
    then some (wants 1 0x80 (b - 0xc0))
    else if between 0xe0 0xef b
    then some (wants 2 0x800 (b - 0xe0))
    else if between 0xf0 0xf7 b
    then some (wants 3 0x10000 (b - 0xf0))
    else none

-- No overlong form, no surrogate, nothing past the last plane.
abbrev is_fit : ℕ → ℕ → Bool
is_fit least v = leb least v && ltb v 0x110000 && not (between 0xd800 0xdfff v)

-- The characters that the tokens spell; `none` is a malformed sequence.
unfoldable pub decode_from : Pending → List Token → Option Text
decode_from idle [] = some []
decode_from (wants _ _ _) [] = none
decode_from idle (plain c ∷ ts) = Option.map (λ s. c ∷ s) (decode_from idle ts)
decode_from (wants _ _ _) (plain c ∷ ts) = none
decode_from idle (octet b ∷ ts) =
    let char = Option.map (λ s. b ∷ s) (decode_from idle ts) in
    let longer = lead b >>= λ p. decode_from p ts in if ltb b 0x80 then char else longer
decode_from (wants left least bits) (octet b ∷ ts) =
    let v = bits * 0x40 + (b - 0x80) in
    let last = Option.map (λ s. v ∷ s) (decode_from idle ts) in
    let next = decode_from (wants (left - 1) least v) ts in
    if not (between 0x80 0xbf b)
    then none
    else if ltb 1 left
    then next
    else if is_fit least v
    then last
    else none

-- `none` is the URIError that the call throws.
unfoldable pub decode_uri_component : Text → Option Text
unfolding unescape decode_from
decode_uri_component s = unescape s >>= decode_from idle
