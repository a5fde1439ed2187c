-- ===== src/Panels/Manifest.antt =====
-- client/src/components/organisms/manifest_view/ManifestView.vm.ts. A save that waits for its answer
-- is an element of the state; `Save` and `Cancel` are disabled meanwhile, the editor is not.
use wiremap.Base.{
  Bool, true, false, not, ◌&&◌, Option, none, some, List, [], ◌∷◌, Text, if◌then◌else◌,
}
use wiremap.Api.{Outcome}
use wiremap.Route.{or_else}

pub record ManifestView : Type 0 where
  pub editing : Bool
  pub draft : Text
  pub saving : Bool
  pub save_error : Option Text
  -- What was sent, newest first.
  pub sent : List Text

unfoldable pub mounted : ManifestView
mounted = record { editing = false; draft = []; saving = false; save_error = none; sent = [] }

-- With the manifest that is shown, or none.
unfoldable pub start_editing : Option Text → ManifestView → ManifestView
start_editing yaml s = record s { draft = or_else yaml []; save_error = none; editing = true }

-- `save` up to its `await`; `can_save` says that `onSave` is given.
unfoldable pub save : Bool → ManifestView → ManifestView
save can_save s =
    if can_save then record s { saving = true; save_error = none; sent = s.draft ∷ s.sent } else s

-- `save` behind its `await`.
unfoldable pub saved : Outcome Unit → ManifestView → ManifestView
saved (Outcome.returned v) s = record s { editing = false; saving = false }
saved (Outcome.thrown message) s = record s { save_error = some message; saving = false }

pub data Event : Type 0 where
  edit_clicked : (yaml : Text) → Event
  typed : Text → Event
  save_clicked cancel_clicked : Event
  answered : Outcome Unit → Event

-- The buttons that the view shows in the state.
unfoldable pub step : Bool → Event → ManifestView → ManifestView
unfolding save saved start_editing
step can_save (Event.edit_clicked yaml) s =
    if can_save && not s.editing then start_editing (some yaml) s else s
step can_save (Event.typed text) s = if s.editing then record s { draft = text } else s
step can_save Event.save_clicked s = if s.editing && not s.saving then save can_save s else s
step can_save Event.cancel_clicked s =
    if s.editing && not s.saving then record s { editing = false } else s
step can_save (Event.answered o) s = if s.saving then saved o s else s

unfoldable pub run : Bool → List Event → ManifestView → ManifestView
unfolding step
run can_save [] s = s
run can_save (e ∷ es) s = run can_save es (step can_save e s)
