-- ===== src/EnvEditor.antt =====
-- The editor of a container's environment,
-- client/src/components/organisms/inspect_view/InspectView.vm.ts. The state of the hook is a
-- record, a request in flight is an argument of the step that handles its answer.
pub mod Entries
pub mod Edits
mod Tests
use wiremap.Base.{
  contains, drop_last, ℕ, zero, suc, ◌+◌, Bool, true, false, not, ◌||◌, ◌&&◌, Option, none, some,
  List, [], ◌∷◌, ◌++◌, map, keep, leb, Text, codes, starts_with, ◌==◌, nat_eq, take, drop,
  if◌then◌else◌,
}
use wiremap.Blank.{trim}
use wiremap.Uri.{encode_uri_component}

pub record EnvVar : Type 0 where
  pub key : Text
  pub value : Text
  pub is_sensitive : Bool

-- The case that `/i` does not tell apart.
abbrev fold_case : Text → Text
fold_case [] = []
fold_case (c ∷ s) =
    let rest = fold_case s in if leb b'A' c && leb c b'Z' then (c + 32) ∷ rest else c ∷ rest

-- `SECRET_PATTERNS.test(key)`.
unfoldable pub is_secret : Text → Bool
is_secret key =
    let k = fold_case key in
    contains (codes "password") k
    || contains (codes "secret") k
    || contains (codes "key") k
    || contains (codes "token") k
    || contains (codes "api_key") k
    || contains (codes "auth") k

-- `indexOf`, which returns -1 in place of none.
unfoldable pub index_of : ℕ → Text → Option ℕ
index_of x [] = none
index_of x (c ∷ s) =
    let later = index_of x s in
    if c == x then some 0 else elim later [ none ↦ none | some i ↦ some (suc i) ]

-- `slice(0, i)` and `slice(i + 1)`, where -1 is an index from the end in the first.
abbrev pub key_at : Option ℕ → Text → Text
key_at none s = drop_last s
key_at (some i) s = take i s

abbrev pub value_at : Option ℕ → Text → Text
value_at none s = s
value_at (some i) s = drop (suc i) s

unfoldable pub env_var : Text → EnvVar
unfolding index_of
env_var env =
    let i = index_of b'=' env in
    record { key = key_at i env; value = value_at i env; is_sensitive = is_secret (key_at i env) }

unfoldable pub env_vars : Option (List Text) → List EnvVar
env_vars none = []
env_vars (some env) = map env_var env

pub record InspectView : Type 0 where
  pub show_secrets : Bool
  pub editing : Bool
  pub edited_env : List EnvVar
  pub saving : Bool
  pub error : Option Text

unfoldable pub shown_env : Option (List Text) → InspectView → List EnvVar
shown_env env s = if s.editing then s.edited_env else env_vars env

unfoldable pub toggle_secrets : InspectView → InspectView
toggle_secrets s = record s { show_secrets = not s.show_secrets }

unfoldable pub start_editing : Option (List Text) → InspectView → InspectView
start_editing env s = record s { edited_env = env_vars env; editing = true; error = none }

unfoldable pub cancel_editing : InspectView → InspectView
cancel_editing s = record s { editing = false; edited_env = []; error = none }

-- `map` with a change at one index.
abbrev pub change_at : (EnvVar → EnvVar) → ℕ → List EnvVar → List EnvVar
change_at f n [] = []
change_at f zero (e ∷ es) = f e ∷ es
change_at f (suc n) (e ∷ es) = e ∷ change_at f n es

-- `filter` by another index.
abbrev pub remove_at : ℕ → List EnvVar → List EnvVar
remove_at n [] = []
remove_at zero (e ∷ es) = es
remove_at (suc n) (e ∷ es) = e ∷ remove_at n es

unfoldable pub update_env_value : ℕ → Text → InspectView → InspectView
update_env_value i value s = record s {
  edited_env = change_at (λ e. record e { value = value }) i s.edited_env;
}

unfoldable pub update_env_key : ℕ → Text → InspectView → InspectView
update_env_key i key s = record s {
  edited_env = change_at (λ e. record e { key = key }) i s.edited_env;
}

unfoldable pub add_env_var : InspectView → InspectView
add_env_var s = record s {
  edited_env = s.edited_env ++ (record { key = []; value = []; is_sensitive = false } ∷ []);
}

unfoldable pub remove_env_var : ℕ → InspectView → InspectView
remove_env_var i s = record s { edited_env = remove_at i s.edited_env }

abbrev pub is_blank : Text → Bool
is_blank s = elim (trim s) [ [] ↦ true | c ∷ w ↦ false ]

abbrev pub entry : EnvVar → Text
entry e = e.key ++ (b'=' ∷ e.value)

-- The `env` of the request's body.
unfoldable pub payload : List EnvVar → List Text
payload es = map entry (keep (λ (e : EnvVar). not (is_blank e.key)) es)

abbrev is_set : Text → Bool
is_set [] = false
is_set (c ∷ s) = true

unfoldable pub save_url : Text → Text → Text
unfolding encode_uri_component
save_url host container_id =
    codes "/api/containers/"
    ++ container_id
    ++ codes "/env"
    ++ (if is_set host then codes "?host=" ++ encode_uri_component host else [])

-- `saveEnv` up to its request.
unfoldable pub save_env : InspectView → InspectView
save_env s = record s { saving = true; error = none }

-- How the request ends: an answer with the id of the container, or the message of an error, which
-- also stands for an answer that is not ok.
pub data SaveResult : Type 0 where
  saved : (id : Option Text) → SaveResult
  failed : (message : Text) → SaveResult

-- `saveEnv` from its answer on.
unfoldable pub save_answer : SaveResult → InspectView → InspectView
save_answer (SaveResult.saved id) s = record s { editing = false; edited_env = []; saving = false }
save_answer (SaveResult.failed message) s = record s { error = some message; saving = false }

abbrev id_of : Option Text → Option Text
id_of none = none
id_of (some []) = none
id_of (some (c ∷ s)) = some (c ∷ s)

-- The argument that `onContainerIdChange` is called with.
unfoldable pub changed_id : SaveResult → Option Text
changed_id (SaveResult.saved id) = id_of id
changed_id (SaveResult.failed message) = none
