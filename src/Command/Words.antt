-- ===== src/Command/Words.antt =====
-- `split(/\s+/)` of kubeCommand.ts on a text that is put together of words and spaces.
use wiremap.Base.{ℕ, ◌≡◌, refl, sym, ap, ◌∙◌, false, List, [], ◌∷◌, ◌++◌, append-nil, Text}
use wiremap.Blank.{starts_with_space}
use wiremap.Blank.Laws.{Spaces, IsWord}
use wiremap.Command.{split_spaces}

split_spaces-word :
    (w s : Text) (ws : List Text)
    → IsWord w
    → split_spaces s ≡ [] ∷ ws
    → split_spaces (w ++ s) ≡ w ∷ ws
unfolding split_spaces
split_spaces-word [] s ws h e = e
split_spaces-word (c ∷ w) s ws h e = rw (h.0, split_spaces-word w s ws h.1 e)

split_spaces-gap :
    (g : ℕ) (gap s : Text)
    → Spaces (g ∷ gap)
    → starts_with_space s ≡ false
    → split_spaces (g ∷ (gap ++ s)) ≡ [] ∷ split_spaces s
unfolding split_spaces
split_spaces-gap g [] s h e = rw (h.0, e)
split_spaces-gap g (k ∷ gap) s h e = rw (h.0, h.1.0) (rw h.1.0 at (split_spaces-gap k gap s h.1 e))

pub split_one : (w : Text) → IsWord w → split_spaces w ≡ w ∷ []
unfolding split_spaces
split_one w h = sym (ap split_spaces (append-nil w)) ∙ split_spaces-word w [] [] h refl

-- A word, a run of spaces and a word are split into the two words.
pub split_two :
    (w : Text) (g : ℕ) (gap : Text) (c : ℕ) (v : Text)
    → IsWord w
    → Spaces (g ∷ gap)
    → IsWord (c ∷ v)
    → split_spaces (w ++ (g ∷ (gap ++ (c ∷ v)))) ≡ w ∷ (c ∷ v) ∷ []
split_two w g gap c v hw hg hv =
    split_spaces-word w _ _ hw
      (split_spaces-gap g gap (c ∷ v) hg hv.0 ∙ ap (λ ws. [] ∷ ws) (split_one (c ∷ v) hv))
