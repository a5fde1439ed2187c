-- ===== src/LogLines.antt =====
-- A line of a log, client/src/components/molecules/log_line/LogLine.vm.ts, and the switches of
-- client/src/components/organisms/log_viewer/LogViewer.vm.ts. The patterns are written out.
pub mod Words
mod Tests
use wiremap.Base.{
  ℕ, zero, suc, ◌+◌, ◌-◌, Bool, true, false, not, ◌&&◌, ◌||◌, Option, none, some, List, [], ◌∷◌,
  ◌++◌, Text, codes, drop, take, length, starts_with, contains, split, leb, ltb, ◌==◌, nat_eq,
  text_eq, if◌then◌else◌,
}
use wiremap.Blank.{is_space, trim}
use wiremap.Streams.{LogType}
use wiremap.Route.{is_truthy}

-- What `\b` stands between: `\w`, and the rest.
abbrev pub is_word : ℕ → Bool
is_word c =
    (leb b'a' c && leb c b'z')
    || (leb b'A' c && leb c b'Z')
    || (leb b'0' c && leb c b'9')
    || c == b'_'

-- The case that `/i` does not tell apart.
abbrev pub fold_case : Text → Text
fold_case [] = []
fold_case (c ∷ s) =
    let rest = fold_case s in if leb b'a' c && leb c b'z' then (c - 32) ∷ rest else c ∷ rest

abbrev pub ends_word : Text → Bool
ends_word [] = true
ends_word (c ∷ s) = not (is_word c)

-- `/\bW\b/` on a text, behind a word character or not.
unfoldable pub has_word : Text → Bool → Text → Bool
has_word w behind [] = false
has_word w behind (c ∷ s) =
    (not behind && (starts_with w (c ∷ s) && ends_word (drop (length w) (c ∷ s))))
    || has_word w (is_word c) s

abbrev pub has_any : List Text → Text → Bool
has_any [] s = false
has_any (w ∷ ws) s = has_word w false s || has_any ws s

pub record LevelPattern : Type 0 where
  pub words : List Text
  pub level : Text

abbrev pattern_of : List Text → Text → LevelPattern
pattern_of words level = record { words = words; level = level }

abbrev pub level_patterns : List LevelPattern
level_patterns =
    pattern_of (codes "ERROR" ∷ codes "ERR" ∷ codes "FATAL" ∷ codes "PANIC" ∷ codes "CRIT" ∷ [])
      (codes "error")
    ∷ pattern_of (codes "WARN" ∷ codes "WARNING" ∷ []) (codes "warn")
    ∷ pattern_of (codes "INFO" ∷ []) (codes "info")
    ∷ pattern_of (codes "DEBUG" ∷ codes "TRACE" ∷ []) (codes "debug")
    ∷ []

abbrev pub first_level : List LevelPattern → Text → Text → Text
first_level [] other message = other
first_level (p ∷ ps) other message =
    if has_any p.words (fold_case message) then p.level else first_level ps other message

abbrev pub other_level : LogType → Text
other_level LogType.stderr = codes "error"
other_level LogType.stdout = codes "default"

unfoldable pub level_of : LogType → Text → Text
unfolding has_word
level_of type message = first_level level_patterns (other_level type) message

abbrev is_digit : ℕ → Bool
is_digit c = leb b'0' c && leb c b'9'

-- The date at the head, `\d{4}-\d{2}-\d{2}T`; in a shape, `d` stands for a digit.
abbrev fits : Text → Text → Bool
fits [] s = true
fits (p ∷ ps) [] = false
fits (p ∷ ps) (c ∷ s) = (if p == b'd' then is_digit c else c == p) && fits ps s

abbrev is_clock : ℕ → Bool
is_clock c = is_digit c || c == b':' || c == b'.'

-- How many characters at the head pass a test.
abbrev pub run_length : (ℕ → Bool) → Text → ℕ
run_length p [] = 0
run_length p (c ∷ s) = let rest = run_length p s in if p c then rest + 1 else 0

abbrev zone_length : Text → ℕ
zone_length [] = 0
zone_length (c ∷ s) = if c == b'Z' then 1 else 0

-- The length of what TIMESTAMP_PATTERN matches, 0 where it does not.
unfoldable pub stamp_length : Text → ℕ
stamp_length text =
    let clock = run_length is_clock (drop 11 text) in
    let zone = zone_length (drop (11 + clock) text) in
    let spaces = run_length is_space (drop (11 + clock + zone) text) in
    if fits (codes "dddd-dd-ddT") text && ltb 0 clock then 11 + clock + zone + spaces else 0

unfoldable pub timestamp : Text → Text
unfolding stamp_length trim
timestamp text = trim (take (stamp_length text) text)

unfoldable pub message_of : Text → Text
unfolding stamp_length
message_of text = drop (stamp_length text) text

abbrev more_than_one : List Text → Bool
more_than_one (_ ∷ _ ∷ _) = true
more_than_one _ = false

unfoldable pub is_multi_line : Text → Bool
unfolding split trim
is_multi_line message = contains (codes "\n") message && more_than_one (split b'\n' (trim message))

abbrev first_line : List Text → Text
first_line [] = []
first_line (l ∷ ls) = l

pub record LogLine : Type 0 where
  pub timestamp : Text
  pub message : Text
  pub level : Text
  pub is_multi_line : Bool
  pub collapsed : Bool

-- `clock_time` is how the browser prints a timestamp's time.
unfoldable pub log_line : (Text → Text) → LogType → Text → Bool → LogLine
unfolding level_of timestamp message_of is_multi_line split
log_line clock_time type text collapsed =
    let message = message_of text in
    record {
      timestamp = if is_truthy (timestamp text) then clock_time (timestamp text) else [];
      message =
          if collapsed && is_multi_line message then first_line (split b'\n' message) else message;
      level = level_of type message;
      is_multi_line = is_multi_line message;
      collapsed = collapsed;
    }

-- LogViewer.vm.ts.
pub record LogViewer : Type 0 where
  pub auto_scroll : Bool
  pub word_wrap : Bool

abbrev pub log_viewer : LogViewer
log_viewer = record { auto_scroll = true; word_wrap = true }

unfoldable pub toggle_auto_scroll : LogViewer → LogViewer
toggle_auto_scroll v = record v { auto_scroll = not v.auto_scroll }

unfoldable pub toggle_word_wrap : LogViewer → LogViewer
toggle_word_wrap v = record v { word_wrap = not v.word_wrap }
