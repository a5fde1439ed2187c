-- ===== src/Format.antt =====
-- client/src/services/format.ts. An instant is its count of milliseconds: what `Date.now()` and
-- `getTime()` of the parsed timestamp return is an argument.
use wiremap.Base.{
  drop_last, ℕ, zero, suc, ◌+◌, ◌-◌, ◌/◌, ◌%◌, Bool, false, not, ◌&&◌, ◌||◌, [], ◌∷◌, ◌++◌, Text,
  codes, starts_with, ltb, ◌==◌, nat_eq, if◌then◌else◌,
}
use mathlib.Core.List.{reverse}

-- The decimal digits of `n` in front of `acc`, on fuel.
unfoldable pub decimal_from : ℕ → ℕ → Text → Text
decimal_from zero n acc = acc
decimal_from (suc fuel) n acc =
    let more = decimal_from fuel (n / 10) ((b'0' + n % 10) ∷ acc) in
    if ltb n 10 then (b'0' + n) ∷ acc else more

-- A number in a template literal.
unfoldable pub decimal : ℕ → Text
unfolding decimal_from
decimal n = decimal_from (suc n) n []

-- `Math.max(0, Math.round((now - created) / 1000))`.
unfoldable pub age_seconds : ℕ → ℕ → ℕ
age_seconds now created = (now - created + 500) / 1000

unfoldable pub format_age : ℕ → ℕ → Text
unfolding decimal age_seconds
format_age now created =
    let seconds = age_seconds now created in
    if ltb seconds 60
    then decimal seconds ++ codes "s"
    else if ltb seconds 3600
    then decimal (seconds / 60) ++ codes "m"
    else if ltb seconds 86400
    then decimal (seconds / 3600) ++ codes "h"
    else decimal (seconds / 86400) ++ codes "d"

abbrev pub ends_with : Text → Text → Bool
ends_with suffix s = starts_with (reverse suffix) (reverse s)

abbrev pub is_vowel : ℕ → Bool
is_vowel c = c == b'a' || c == b'e' || c == b'i' || c == b'o' || c == b'u'

-- `/[^aeiou]y$/`, on the text backwards.
abbrev pub ends_in_consonant_y : Text → Bool
ends_in_consonant_y (y ∷ c ∷ s) = y == b'y' && not (is_vowel c)
ends_in_consonant_y _ = false

unfoldable pub plural_kind : Text → Text
plural_kind kind =
    if ends_with (codes "ss") kind
      || ends_with (codes "us") kind
      || ends_with (codes "x") kind
      || ends_with (codes "ch") kind
      || ends_with (codes "sh") kind
    then kind ++ codes "es"
    else if ends_with (codes "s") kind
    then kind
    else if ends_in_consonant_y (reverse kind)
    then drop_last kind ++ codes "ies"
    else kind ++ codes "s"
