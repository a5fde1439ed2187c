-- ===== src/EnvEditor/Tests.antt =====
-- The theorems on the editor at a container with two variables.
use wiremap.Base.{◌≡◌, refl, true, false, some, none, List, [], ◌∷◌, Text, codes, arith}
use wiremap.EnvEditor.{
  EnvVar, InspectView, SaveResult, env_vars, payload, start_editing, cancel_editing, toggle_secrets,
  save_env, save_answer, shown_env, is_secret,
}
use wiremap.EnvEditor.Entries.{payload-start_editing}
use wiremap.Blank.{trim}

abbrev variables : List Text
variables = codes "PATH=/bin" ∷ codes "API_TOKEN=a=b" ∷ []

abbrev edited : List EnvVar
edited =
    record { key = codes "A"; value = codes "1=2"; is_sensitive = false }
    ∷ record { key = codes " "; value = codes "x"; is_sensitive = false }
    ∷ []

abbrev editor : InspectView
editor = record {
  show_secrets = false;
  editing = true;
  edited_env = edited;
  saving = false;
  error = none;
}

shown : is_secret (codes "API_TOKEN") ≡ true
unfolding is_secret
shown = refl

payload-start_editing_example :
    payload (start_editing (some variables) editor).edited_env ≡ variables
unfolding trim
payload-start_editing_example = payload-start_editing variables editor (
  (codes "PATH", codes "/bin", refl, ground arith, refl),
  ((codes "API_TOKEN", codes "a=b", refl, ground arith, refl), tt),
)

failed : InspectView
failed = save_answer (SaveResult.failed (codes "Conflict")) (save_env (toggle_secrets editor))

-- A failed save keeps the edits, and leaving the editor shows the container again.
kept :
    (shown_env (some variables) failed ≡ edited)
    × (shown_env (some variables) (cancel_editing failed) ≡ env_vars (some variables))
unfolding failed shown_env save_answer save_env toggle_secrets cancel_editing
kept = (refl, refl)
