-- ===== src/Volumes/Tests.antt =====
-- The theorems on the browser of volumes at "/var/log" and at two files.
use wiremap.Base.{
  ◌≡◌, refl, true, false, none, some, [], Text, codes, same_text, split, join, arith,
}
use wiremap.Volumes.{
  FileContent, VolumeBrowser, download_name, edit, file_opened, file_saved, list_url, open_file,
  parent, save_file, save_request,
}
use wiremap.Volumes.Paths.{IsName}
use wiremap.Volumes.Saving.{save-late}

abbrev file : Text → Text → FileContent
file path content = record { path = path; content = content; binary = false; size = 0 }

abbrev start : VolumeBrowser
start = record {
  current_path = some (codes "/var");
  entries = [];
  loading = false;
  file_content = none;
  edited_content = none;
  file_loading = false;
  saving = false;
  save_status = none;
}

paths :
    (download_name (file (codes "/etc/hosts") []) ≡ codes "hosts")
    × (parent (some (codes "/")) ≡ none)
    × (list_url (codes "a1") (codes "h") (codes "/x")
        ≡ codes "/api/containers/a1/fs?path=%2Fx&host=h")
unfolding download_name parent list_url split same_text join
paths = (refl, refl, refl)

var : IsName (codes "var")
unfolding same_text
var = record { some_name = refl; no_slash = ground arith }

log : IsName (codes "log")
unfolding same_text
log = record { some_name = refl; no_slash = ground arith }

abbrev hosts : FileContent
hosts = file (codes "/etc/hosts") (codes "a")

save-late_example :
    let saving = save_file (edit (codes "b") (file_opened (some hosts) start)) in
    let late =
      file_saved hosts
        (codes "b")
        true
        (file_opened (some (file (codes "/etc/passwd") (codes "root"))) (open_file saving)) in
    save_request late ≡ some (record hosts { content = codes "b" }, codes "root")
save-late_example = save-late hosts (file (codes "/etc/passwd") (codes "root")) (codes "b") start
