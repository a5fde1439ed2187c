-- ===== src/Panels/Saving.antt =====
-- What a save of a manifest sends, and what it does not.
use wiremap.Base.{
  ◌≡◌, refl, ap, Bool, true, false, not, ◌&&◌, some, List, [], ◌∷◌, Text, arith, same_text, if_elim,
}
use wiremap.Api.{Outcome}
use wiremap.Route.{or_else}
use wiremap.Panels.Manifest.{Event, ManifestView, run, save, saved, start_editing, step}

-- While a save waits for its answer the editor is open.
abbrev pub IsOpen : ManifestView → Type 0
IsOpen s = s.saving ≡ true → s.editing ≡ true

saved-IsOpen : (o : Outcome Unit) (s : ManifestView) → IsOpen (saved o s)
unfolding saved
saved-IsOpen (Outcome.returned v) s e = absurd (ground (arith, e))
saved-IsOpen (Outcome.thrown m) s e = absurd (ground (arith, e))

step-IsOpen : (c : Bool) (e : Event) (s : ManifestView) → IsOpen s → IsOpen (step c e s)
unfolding step
step-IsOpen c (Event.edit_clicked yaml) s h =
    if_elim IsOpen (c && not s.editing) _ _ (λ e. unfold start_editing in (λ q. refl)) (λ e. h)
step-IsOpen c (Event.typed text) s h = if_elim IsOpen s.editing _ _ (λ e. h) (λ e. h)
step-IsOpen c Event.save_clicked s h =
    if_elim IsOpen (s.editing && not s.saving) _ _
      (λ e. unfold save in if_elim IsOpen c _ _ (λ k q. ground (arith, e)) (λ k. h)) (λ e. h)
step-IsOpen c Event.cancel_clicked s h =
    if_elim IsOpen (s.editing && not s.saving) _ _ (λ e q. absurd (ground (arith, e, q))) (λ e. h)
step-IsOpen c (Event.answered o) s h = if_elim IsOpen s.saving _ _ (λ e. saved-IsOpen o s) (λ e. h)

-- Whatever is clicked, typed and answered, the editor is open while a save waits for its answer.
pub run-IsOpen : (c : Bool) (es : List Event) (s : ManifestView) → IsOpen s → IsOpen (run c es s)
unfolding run
run-IsOpen c [] s h = h
run-IsOpen c (e ∷ es) s h = run-IsOpen c es (step c e s) (step-IsOpen c e s h)

or_else-some : (t : Text) → or_else (some t) [] ≡ t
unfolding same_text
or_else-some [] = refl
or_else-some (c ∷ t) = refl

-- A manifest that is opened and saved is sent as it was shown.
pub save-unedited :
    (yaml : Text) (s : ManifestView)
    → s.editing ≡ false
    → s.saving ≡ false
    → (run true (Event.edit_clicked yaml ∷ Event.save_clicked ∷ []) s).sent ≡ yaml ∷ s.sent
unfolding run start_editing save
save-unedited yaml s e f = rw (e, f) (ap (λ t. t ∷ s.sent) (or_else-some yaml))

-- What is typed while a save waits is lost if the save succeeds: the editor closes and nothing more
-- is sent.
pub save-typed :
    (text : Text) (s : ManifestView)
    → s.editing ≡ true
    → s.saving ≡ true
    → let t = run true (Event.typed text ∷ Event.answered (Outcome.returned tt) ∷ []) s in
      (t.editing ≡ false) × (t.sent ≡ s.sent) × (t.draft ≡ text)
unfolding run saved
save-typed text s e f = rw (e, f) (refl, refl, refl)
