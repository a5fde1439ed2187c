-- ===== src/Volumes.antt =====
-- client/src/components/organisms/volume_browser/VolumeBrowser.vm.ts. A request is two steps: what
-- the code does before it, and what it does with the answer; no answer stands for an error.
pub mod Paths
pub mod Saving
mod Tests
use wiremap.Base.{
  ℕ, Bool, true, false, not, ◌||◌, Option, none, some, List, [], ◌∷◌, ◌++◌, keep, drop_last, split,
  join, Text, codes, ◌==◌, text_eq, if◌then◌else◌,
}
use wiremap.Route.{is_truthy}
use wiremap.Uri.{encode_uri_component}

pub record FileEntry : Type 0 where
  pub name : Text
  pub path : Text
  pub is_dir : Bool
  pub size : ℕ
  pub permissions : Text

pub record FileContent : Type 0 where
  pub path : Text
  pub content : Text
  pub binary : Bool
  pub size : ℕ

pub record VolumeBrowser : Type 0 where
  pub current_path : Option Text
  pub entries : List FileEntry
  pub loading : Bool
  pub file_content : Option FileContent
  pub edited_content : Option Text
  pub file_loading : Bool
  pub saving : Bool
  pub save_status : Option Text

unfoldable pub host_param : Text → Text → Text
unfolding encode_uri_component
host_param mark host =
    if is_truthy host then mark ++ (codes "host=" ++ encode_uri_component host) else []

unfoldable pub list_url : Text → Text → Text → Text
unfolding encode_uri_component host_param
list_url container_id host path =
    codes "/api/containers/"
    ++ (container_id
        ++ (codes "/fs?path=" ++ (encode_uri_component path ++ host_param (codes "&") host)))

unfoldable pub read_url : Text → Text → Text → Text
unfolding encode_uri_component host_param
read_url container_id host path =
    codes "/api/containers/"
    ++ (container_id
        ++ (codes "/fs/read?path=" ++ (encode_uri_component path ++ host_param (codes "&") host)))

unfoldable pub write_url : Text → Text → Text
unfolding host_param
write_url container_id host =
    codes "/api/containers/" ++ (container_id ++ (codes "/fs/write" ++ host_param (codes "?") host))

unfoldable pub navigate_to : VolumeBrowser → VolumeBrowser
navigate_to s = record s {
  loading = true;
  file_content = none;
  edited_content = none;
  save_status = none;
}

unfoldable pub navigated : Text → Option (List FileEntry) → VolumeBrowser → VolumeBrowser
navigated path none s = record s { entries = []; loading = false }
navigated path (some entries) s = record s {
  entries = entries;
  current_path = some path;
  loading = false;
}

unfoldable pub open_file : VolumeBrowser → VolumeBrowser
open_file s = record s { file_loading = true; save_status = none }

unfoldable pub file_opened : Option FileContent → VolumeBrowser → VolumeBrowser
file_opened none s = record s { file_content = none; edited_content = none; file_loading = false }
file_opened (some f) s = record s {
  file_content = some f;
  edited_content = some f.content;
  file_loading = false;
}

unfoldable pub edit : Text → VolumeBrowser → VolumeBrowser
edit content s = record s { edited_content = some content }

-- The file and the content that a save sends, if it sends any.
unfoldable pub save_request : VolumeBrowser → Option (FileContent × Text)
save_request s = elim s.file_content [
  | none ↦ none
  | some f ↦ elim s.edited_content [ none ↦ none | some content ↦ some (f, content) ]
]

abbrev begin_save : Option (FileContent × Text) → VolumeBrowser → VolumeBrowser
begin_save none s = s
begin_save (some r) s = record s { saving = true; save_status = none }

unfoldable pub save_file : VolumeBrowser → VolumeBrowser
unfolding save_request
save_file s = begin_save (save_request s) s

-- The answer to the request that sent the file `f` with this content.
unfoldable pub file_saved : FileContent → Text → (ok : Bool) → VolumeBrowser → VolumeBrowser
file_saved f content false s = record s {
  save_status = some (codes "Failed to save");
  saving = false;
}
file_saved f content true s = record s {
  file_content = some (record f { content = content });
  save_status = some (codes "Saved");
  saving = false;
}

-- The timeout that a successful save sets.
unfoldable pub status_timeout : VolumeBrowser → VolumeBrowser
status_timeout s = record s { save_status = none }

unfoldable pub close_file : VolumeBrowser → VolumeBrowser
close_file s = record s { file_content = none; edited_content = none; save_status = none }

unfoldable pub is_dirty : VolumeBrowser → Bool
is_dirty s = elim s.edited_content [
  | none ↦ false
  | some content ↦ elim s.file_content [ none ↦ false | some f ↦ not (content == f.content) ]
]

abbrev pub or_root : Text → Text
or_root path = if is_truthy path then path else codes "/"

-- Where `goUp` navigates to.
unfoldable pub parent : Option Text → Option Text
parent none = none
parent (some path) =
    if not (is_truthy path) || path == codes "/"
    then none
    else some (or_root (join b'/' (drop_last (split b'/' path))))

pub record Breadcrumb : Type 0 where
  pub name : Text
  pub path : Text

-- The loop of `reduce`; `prev` is the path of the last crumb.
unfoldable pub crumbs_from : Text → List Text → List Breadcrumb
crumbs_from prev [] = []
crumbs_from prev (part ∷ parts) =
    let path = prev ++ (b'/' ∷ part) in record { name = part; path = path } ∷ crumbs_from path parts

unfoldable pub breadcrumbs : Option Text → List Breadcrumb
unfolding crumbs_from
breadcrumbs none = []
breadcrumbs (some path) = crumbs_from [] (keep is_truthy (split b'/' path))

abbrev last_or_empty : List Text → Text
last_or_empty [] = []
last_or_empty (w ∷ []) = w
last_or_empty (w ∷ v ∷ vs) = last_or_empty (v ∷ vs)

-- The name that a file is downloaded under.
unfoldable pub download_name : FileContent → Text
download_name f =
    let name = last_or_empty (split b'/' f.path) in if is_truthy name then name else codes "file"
