-- ===== src/LogLines/Words.antt =====
-- A level's word is found exactly where it is a whole word of the line.
use wiremap.Base.{
  ℕ, ◌≡◌, refl, sym, ap, ◌∙◌, inl, inr, Bool, true, false, not, ◌&&◌, ◌||◌, List, [], ◌∷◌, Text,
  All, drop, length, starts_with, cons_head, includes, same_text, arith, Bool-cases, ◌==◌, nat_eq,
  if◌then◌else◌,
}
use wiremap.Base.Compare.{nat_beq_iff}
use wiremap.LogLines.{
  LevelPattern, ends_word, first_level, fold_case, has_any, has_word, is_word, level_of,
  level_patterns, other_level,
}
use wiremap.Streams.{LogType}

-- The runs of word characters: what splitting at every other character leaves.
unfoldable pub runs : Text → List Text
runs [] = [] ∷ []
runs (c ∷ s) = let rest = runs s in if is_word c then cons_head c rest else [] ∷ rest

abbrev head_run : List Text → Text
head_run [] = []
head_run (r ∷ rs) = r

abbrev later_runs : List Text → List Text
later_runs [] = []
later_runs (r ∷ rs) = rs

abbrev IsWordText : Text → Type 0
IsWordText = All (λ c. is_word c ≡ true)

runs-cases : (s : Text) → (r : Text) × (rs : List Text) × (runs s ≡ r ∷ rs)
unfolding runs
runs-cases [] = ([], [], refl)
runs-cases (c ∷ s) =
    let (r, rs, e) = runs-cases s in
    rw e
      (elim (is_word c)
        as (λ b.
          (q : Text) × (qs : List Text) × ((if b then (c ∷ r) ∷ rs else [] ∷ r ∷ rs) ≡ q ∷ qs)) [
            | true ↦ (c ∷ r, rs, refl)
            | false ↦ ([], r ∷ rs, refl)
          ])

module _ (c : ℕ) (s : Text) where
  runs-word : is_word c ≡ true → runs (c ∷ s) ≡ (c ∷ head_run (runs s)) ∷ later_runs (runs s)
  unfolding runs
  runs-word h = let (r, rs, e) = runs-cases s in rw (h, e) refl

  runs-other : is_word c ≡ false → runs (c ∷ s) ≡ [] ∷ runs s
  unfolding runs
  runs-other h = rw h refl

word-other : (x c : ℕ) → is_word x ≡ true → is_word c ≡ false → (x == c) ≡ false
word-other x c h e = elim (Bool-cases (x == c)) [
  | inl q ↦ absurd (ground (arith, sym h ∙ ap is_word ((nat_beq_iff x c).0 q) ∙ e))
  | inr q ↦ q
]

-- A word stands at the head of a text, and ends there, exactly if it is the first run.
starts_with-head_run :
    (w s : Text)
    → IsWordText w
    → (starts_with w s && ends_word (drop (length w) s)) ≡ same_text (head_run (runs s)) w
unfolding same_text
starts_with-head_run [] [] h = unfold runs in refl
starts_with-head_run [] (c ∷ s) h = elim (Bool-cases (is_word c)) [
  | inl e ↦ rw (runs-word c s e, e) refl
  | inr e ↦ rw (runs-other c s e, e) refl
]
starts_with-head_run (x ∷ w) [] h = unfold runs in refl
starts_with-head_run (x ∷ w) (c ∷ s) h = elim (Bool-cases (is_word c)) [
  | inl e ↦ rw (runs-word c s e) (ground (arith, starts_with-head_run w s h.1))
  | inr e ↦ rw (runs-other c s e) (let other = word-other x c h.0 e in rw other refl)
]

abbrev runs_after : Bool → List Text → List Text
runs_after true rs = later_runs rs
runs_after false rs = rs

includes-after :
    (behind : Bool) (r : Text) (rs : List Text) (w : Text)
    → ((not behind && same_text r w) || includes w rs) ≡ includes w (runs_after behind (r ∷ rs))
includes-after true r rs w = refl
includes-after false r rs w = refl

has_word-runs :
    (x : ℕ) (w s : Text) (behind : Bool)
    → IsWordText (x ∷ w)
    → has_word (x ∷ w) behind s ≡ includes (x ∷ w) (runs_after behind (runs s))
unfolding has_word
has_word-runs x w [] true h = unfold runs in refl
has_word-runs x w [] false h = unfold runs same_text in refl
has_word-runs x w (c ∷ s) behind h = elim (Bool-cases (is_word c)) [
  | inl e ↦
      rw (e, has_word-runs x w s true h, starts_with-head_run (x ∷ w) (c ∷ s) h, runs-word c s e)
        (includes-after behind (c ∷ head_run (runs s)) (later_runs (runs s)) (x ∷ w))
  | inr e ↦
      rw (e, has_word-runs x w s false h, starts_with-head_run (x ∷ w) (c ∷ s) h, runs-other c s e)
        (includes-after behind [] (runs s) (x ∷ w))
]

-- The level in terms of the words of a line.
abbrev includes_any : List Text → List Text → Bool
includes_any [] ws = false
includes_any (w ∷ more) ws = includes w ws || includes_any more ws

abbrev pub level_in : List LevelPattern → Text → List Text → Text
level_in [] other ws = other
level_in (p ∷ ps) other ws = if includes_any p.words ws then p.level else level_in ps other ws

abbrev AreWords : List Text → Type 0
AreWords [] = Unit
AreWords ([] ∷ ws) = ⊥
AreWords ((x ∷ w) ∷ ws) = IsWordText (x ∷ w) × AreWords ws

has_any-runs : (ws : List Text) (s : Text) → AreWords ws → has_any ws s ≡ includes_any ws (runs s)
has_any-runs [] s h = refl
has_any-runs ([] ∷ ws) s h = absurd h
has_any-runs ((x ∷ w) ∷ ws) s h = rw (has_word-runs x w s false h.0, has_any-runs ws s h.1) refl

first_level-runs :
    (ps : List LevelPattern) (other message : Text)
    → All (λ (p : LevelPattern). AreWords p.words) ps
    → first_level ps other message ≡ level_in ps other (runs (fold_case message))
first_level-runs [] other message h = refl
first_level-runs (p ∷ ps) other message h =
    rw (has_any-runs p.words (fold_case message) h.0, first_level-runs ps other message h.1) refl

level_patterns-AreWords : All (λ (p : LevelPattern). AreWords p.words) level_patterns
level_patterns-AreWords = ground arith

-- The level of a line is that of the first pattern which has one of the line's words, where a word is
-- a whole run of letters, digits and underscores, whatever its case; a line with none of them is an
-- error if it came from stderr.
pub level_of-runs :
    (type : LogType) (message : Text)
    → level_of type message ≡ level_in level_patterns (other_level type) (runs (fold_case message))
unfolding level_of
level_of-runs type message =
    first_level-runs level_patterns (other_level type) message level_patterns-AreWords
