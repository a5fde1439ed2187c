-- ===== src/Uri/Laws.antt =====
-- Decoding undoes encoding.
use wiremap.Base.{
  ℕ, suc, ◌+◌, ◌-◌, ◌*◌, ◌/◌, ◌%◌, ◌≤◌, ◌<◌, ◌≡◌, ◌≢◌, refl, sym, ap, ◌∙◌, inl, inr, true, false,
  some, List, [], ◌∷◌, ◌++◌, map, append_assoc, Text, All, All-append, Lacks, if◌then◌else◌, arith,
  ltb, Bool-cases,
}
use wiremap.Uri.{
  between, lead, IsScalar, is_unreserved, utf8, hex_digit, escape, escape_all, encode_char,
  encode_uri_component, hex_value, Token, plain, octet, unescape, idle, wants, decode_from,
  decode_uri_component,
}

hex_value-hex_digit : (n : ℕ) → n < 16 → hex_value (hex_digit n) ≡ some n
unfolding hex_value hex_digit
hex_value-hex_digit n h = ground arith

unescape-escape :
    (b : ℕ) (s : Text) (ts : List Token)
    → b < 256
    → unescape s ≡ some ts
    → unescape (escape b ++ s) ≡ some (octet b ∷ ts)
unfolding escape unescape
unescape-escape b s ts h e =
    rw (hex_value-hex_digit (b / 16) (omega arith), hex_value-hex_digit (b % 16) (omega arith), e)
      (ap (λ x. some (octet x ∷ ts)) (omega arith))

pub unescape-plain :
    (c : ℕ) (s : Text) (ts : List Token)
    → c ≢ b'%'
    → unescape s ≡ some ts
    → unescape (c ∷ s) ≡ some (plain c ∷ ts)
unfolding unescape
unescape-plain c [] ts h e = ground arith
unescape-plain c (d ∷ []) ts h e = ground arith
unescape-plain c (d ∷ l ∷ s) ts h e = rw e (ground arith)

is_continuation : (x : ℕ) → x < 0x40 → between 0x80 0xbf (0x80 + x) ≡ true
is_continuation x h = ground arith

lead_two :
    (x : ℕ) → x < 0x20 → (ltb (0xc0 + x) 0x80 ≡ false) × (lead (0xc0 + x) ≡ some (wants 1 0x80 x))
lead_two x h = ground arith

lead_three :
    (x : ℕ) → x < 0x10 → (ltb (0xe0 + x) 0x80 ≡ false) × (lead (0xe0 + x) ≡ some (wants 2 0x800 x))
lead_three x h = ground arith

lead_four :
    (x : ℕ) → x < 8 → (ltb (0xf0 + x) 0x80 ≡ false) × (lead (0xf0 + x) ≡ some (wants 3 0x10000 x))
lead_four x h = ground arith

two_left :
    (left x : ℕ)
    → (ltb 1 (suc (suc left)) ≡ true) × (suc (suc left) - 1 ≡ suc left) × (0x80 + x - 0x80 ≡ x)
two_left left x = ground arith

-- A continuation octet that is not the last, and the last.
decode_from-next :
    (left least bits x : ℕ) (ts : List Token)
    → x < 0x40
    → decode_from (wants (suc (suc left)) least bits) (octet (0x80 + x) ∷ ts)
      ≡ decode_from (wants (suc left) least (bits * 0x40 + x)) ts
unfolding decode_from
decode_from-next left least bits x ts h =
    let (more, fewer, low) = two_left left x in rw (is_continuation x h, more, fewer, low)

decode_from-last :
    (least bits x v : ℕ) (ts : List Token) (s : Text)
    → x < 0x40
    → v ≡ bits * 0x40 + x
    → least ≤ v
    → IsScalar v
    → decode_from idle ts ≡ some s
    → decode_from (wants 1 least bits) (octet (0x80 + x) ∷ ts) ≡ some (v ∷ s)
unfolding decode_from
decode_from-last least bits x v ts s h e fits scalar rest = rw (rest, e) (ground arith)

-- The first octet of each longer form.
decode_from-lead :
    (x : ℕ) (ts : List Token)
    → (x < 0x20 → decode_from idle (octet (0xc0 + x) ∷ ts) ≡ decode_from (wants 1 0x80 x) ts)
      × (x < 0x10 → decode_from idle (octet (0xe0 + x) ∷ ts) ≡ decode_from (wants 2 0x800 x) ts)
      × (x < 8 → decode_from idle (octet (0xf0 + x) ∷ ts) ≡ decode_from (wants 3 0x10000 x) ts)
unfolding decode_from
decode_from-lead x ts = (
  λ h. let (high, start) = lead_two x h in rw (high, start),
  λ h. let (high, start) = lead_three x h in rw (high, start),
  λ h. let (high, start) = lead_four x h in rw (high, start),
)

module _ (c : ℕ) (ts : List Token) (s : Text) (scalar : IsScalar c)
    (rest : decode_from idle ts ≡ some s) where
  decode_from-ascii : c < 0x80 → decode_from idle (octet c ∷ ts) ≡ some (c ∷ s)
  unfolding decode_from
  decode_from-ascii h = rw rest (ground arith)

  decode_from-two :
      0x80 ≤ c
      → c < 0x800
      → decode_from idle (octet (0xc0 + c / 0x40) ∷ octet (0x80 + c % 0x40) ∷ ts) ≡ some (c ∷ s)
  decode_from-two l h =
      rw ((decode_from-lead (c / 0x40) _).0 (omega arith)) (
        decode_from-last 0x80 (c / 0x40) (c % 0x40) c ts s (omega arith) (omega arith) l scalar
          rest)

  decode_from-three :
      0x800 ≤ c
      → c < 0x10000
      → decode_from idle (
          octet (0xe0 + c / 0x1000) ∷ octet (0x80 + c / 0x40 % 0x40) ∷ octet (0x80 + c % 0x40) ∷ ts)
        ≡ some (c ∷ s)
  decode_from-three l h =
      rw
        (
          (decode_from-lead (c / 0x1000) _).1 (omega arith),
          decode_from-next 0 0x800 (c / 0x1000) (c / 0x40 % 0x40) _ (omega arith),
        )
        (decode_from-last 0x800 _ (c % 0x40) c ts s (omega arith) (omega arith) l scalar rest)

  decode_from-four :
      0x10000 ≤ c
      → decode_from idle (
          octet (0xf0 + c / 0x40000)
          ∷ octet (0x80 + c / 0x1000 % 0x40)
          ∷ octet (0x80 + c / 0x40 % 0x40)
          ∷ octet (0x80 + c % 0x40)
          ∷ ts)
        ≡ some (c ∷ s)
  decode_from-four l =
      rw
        (
          (decode_from-lead (c / 0x40000) _).2 (omega arith),
          decode_from-next 1 0x10000 (c / 0x40000) (c / 0x1000 % 0x40) _ (omega arith),
          decode_from-next 0 0x10000 _ (c / 0x40 % 0x40) _ (omega arith),
        )
        (decode_from-last 0x10000 _ (c % 0x40) c ts s (omega arith) (omega arith) l scalar rest)

  pub decode_from-utf8 : decode_from idle (map octet (utf8 c) ++ ts) ≡ some (c ∷ s)
  unfolding utf8
  decode_from-utf8 =
      ground (arith, decode_from-ascii, decode_from-two, decode_from-three, decode_from-four)

pub utf8-lt : (c : ℕ) → IsScalar c → All (λ b. b < 256) (utf8 c)
unfolding utf8
utf8-lt c h = ground arith

pub unescape-escape_all :
    (bs : List ℕ) (s : Text) (ts : List Token)
    → All (λ b. b < 256) bs
    → unescape s ≡ some ts
    → unescape (escape_all bs ++ s) ≡ some (map octet bs ++ ts)
unfolding escape_all
unescape-escape_all [] s ts h e = e
unescape-escape_all (b ∷ bs) s ts h e =
    rw append_assoc
      (unescape-escape b (escape_all bs ++ s) _ h.0 (unescape-escape_all bs s ts h.1 e))

-- The tokens of an encoded text.
char_tokens : ℕ → List Token
char_tokens c = if is_unreserved c then plain c ∷ [] else map octet (utf8 c)

tokens : Text → List Token
tokens [] = []
tokens (c ∷ s) = char_tokens c ++ tokens s

unreserved-ne : (c : ℕ) → is_unreserved c ≡ true → c ≢ b'%'
unfolding is_unreserved
unreserved-ne c h = ground arith

unescape-encode_char :
    (c : ℕ) (s : Text) (ts : List Token)
    → IsScalar c
    → unescape s ≡ some ts
    → unescape (encode_char c ++ s) ≡ some (char_tokens c ++ ts)
unfolding encode_char char_tokens
unescape-encode_char c s ts h e = elim (Bool-cases (is_unreserved c)) [
  | inl kept ↦ rw kept (unescape-plain c s ts (unreserved-ne c kept) e)
  | inr other ↦ rw other (unescape-escape_all (utf8 c) s ts (utf8-lt c h) e)
]

unescape-encode : (s : Text) → All IsScalar s → unescape (encode_uri_component s) ≡ some (tokens s)
unfolding encode_uri_component tokens unescape
unescape-encode [] h = refl
unescape-encode (c ∷ s) h = unescape-encode_char c _ _ h.0 (unescape-encode s h.1)

decode_from-char_tokens :
    (c : ℕ) (ts : List Token) (s : Text)
    → IsScalar c
    → decode_from idle ts ≡ some s
    → decode_from idle (char_tokens c ++ ts) ≡ some (c ∷ s)
unfolding char_tokens
decode_from-char_tokens c ts s h e = elim (Bool-cases (is_unreserved c)) [
  | inl kept ↦ rw kept (unfold decode_from in (rw e))
  | inr other ↦ rw other (decode_from-utf8 c ts s h e)
]

decode_from-tokens : (s : Text) → All IsScalar s → decode_from idle (tokens s) ≡ some s
unfolding tokens decode_from
decode_from-tokens [] h = refl
decode_from-tokens (c ∷ s) h = decode_from-char_tokens c (tokens s) s h.0 (decode_from-tokens s h.1)

-- Decoding an encoded text gives the text back, and does not throw.
pub decode-encode :
    (s : Text) → All IsScalar s → decode_uri_component (encode_uri_component s) ≡ some s
unfolding decode_uri_component
decode-encode s h = rw (unescape-encode s h) (decode_from-tokens s h)

pub hex_digit-unreserved : (n : ℕ) → n < 16 → is_unreserved (hex_digit n) ≡ true
unfolding hex_digit is_unreserved
hex_digit-unreserved n h = ground arith

-- A character that encoding does not write.
module _ (x : ℕ) (reserved : is_unreserved x ≡ false) (plain : x ≢ b'%') where
  unreserved-other : (c : ℕ) → is_unreserved c ≡ true → c ≢ x
  unreserved-other c h e = absurd (ground (arith, sym h ∙ ap is_unreserved e ∙ reserved))

  pub escape_all-Lacks : (bs : List ℕ) → All (λ b. b < 256) bs → Lacks x (escape_all bs)
  unfolding escape_all
  escape_all-Lacks [] h = tt
  escape_all-Lacks (b ∷ bs) h = (
    λ e. plain (sym e),
    (
      unreserved-other _ (hex_digit-unreserved (b / 16) (omega arith)),
      (unreserved-other _ (hex_digit-unreserved (b % 16) (omega arith)), escape_all-Lacks bs h.1),
    ),
  )

  pub encode-Lacks : (s : Text) → All IsScalar s → Lacks x (encode_uri_component s)
  unfolding encode_uri_component encode_char
  encode-Lacks [] h = tt
  encode-Lacks (c ∷ s) h =
      All-append _ _ _
        (elim (Bool-cases (is_unreserved c)) [
          | inl kept ↦ rw kept (unreserved-other c kept, tt)
          | inr other ↦ rw other (escape_all-Lacks (utf8 c) (utf8-lt c h.0))
        ])
        (encode-Lacks s h.1)

-- The separators of a path and of a query are not written.
pub not_written : (is_unreserved b'/' ≡ false) × (is_unreserved b'?' ≡ false)
unfolding is_unreserved
not_written = (refl, refl)
