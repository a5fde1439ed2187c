-- ===== src/Volumes/Saving.antt =====
-- Editing and saving files, VolumeBrowser.vm.ts.
use wiremap.Base.{◌≡◌, refl, ap, not, true, false, some, Text, eq_self, text_eq}
use wiremap.Volumes.{
  FileContent, VolumeBrowser, edit, file_opened, file_saved, is_dirty, open_file, save_file,
  save_request,
}

-- A file that was opened, edited and saved is not dirty, and a failed save sends the same again.
pub save-is_dirty :
    (f : FileContent) (content : Text) (s : VolumeBrowser)
    → let edited = edit content (file_opened (some f) (open_file s)) in
      (save_request edited ≡ some (f, content))
      × (is_dirty (file_saved f content true (save_file edited)) ≡ false)
      × (save_request (file_saved f content false (save_file edited)) ≡ some (f, content))
unfolding edit file_opened open_file save_request save_file file_saved is_dirty
save-is_dirty f content s = (refl, ap not (eq_self content), refl)

-- If another file is opened while a save waits for its answer, then the answer puts the saved file
-- back in place of it, with the other file's text to edit: the next save sends that text to the
-- path of the saved file.
pub save-late :
    (f other : FileContent) (content : Text) (s : VolumeBrowser)
    → let saving = save_file (edit content (file_opened (some f) s)) in
      let late = file_saved f content true (file_opened (some other) (open_file saving)) in
      save_request late ≡ some (record f { content = content }, other.content)
unfolding edit file_opened open_file save_request save_file file_saved
save-late f other content s = refl
