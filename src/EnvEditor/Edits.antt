-- ===== src/EnvEditor/Edits.antt =====
-- The edits of InspectView.vm.ts against a list whose entries change one by one.
use wiremap.Base.{
  ◌∙◌, ℕ, zero, suc, ◌≡◌, refl, ap, List, [], ◌∷◌, ◌++◌, arith, Text, length, get_elem?, ltb,
  nat_beq, if◌then◌else◌,
}
use mathlib.Core.Option
use wiremap.EnvEditor.{
  EnvVar, InspectView, change_at, remove_at, update_env_value, update_env_key, add_env_var,
  remove_env_var,
}

get-change_at :
    (f : EnvVar → EnvVar) (i j : ℕ) (es : List EnvVar)
    → get_elem? (change_at f i es) j
      ≡ (if nat_beq i j then Option.map f (get_elem? es j) else get_elem? es j)
get-change_at f i j [] = ground arith
get-change_at f zero zero (e ∷ es) = refl
get-change_at f zero (suc j) (e ∷ es) = ground arith
get-change_at f (suc i) zero (e ∷ es) = ground arith
get-change_at f (suc i) (suc j) (e ∷ es) = get-change_at f i j es ∙ ground arith

get-remove_at :
    (i j : ℕ) (es : List EnvVar)
    → get_elem? (remove_at i es) j ≡ (if ltb j i then get_elem? es j else get_elem? es (suc j))
get-remove_at i j [] = ground arith
get-remove_at zero j (e ∷ es) = ground arith
get-remove_at (suc i) zero (e ∷ es) = ground arith
get-remove_at (suc i) (suc j) (e ∷ es) = get-remove_at i j es ∙ ground arith

remove_at-append : (es : List EnvVar) (e : EnvVar) → remove_at (length es) (es ++ (e ∷ [])) ≡ es
remove_at-append [] e = refl
remove_at-append (x ∷ es) e = ap (λ t. x ∷ t) (remove_at-append es e)

-- A change of the value or of the name at one index changes the entry there in that field, and no
-- other entry. Removing an index keeps the entries before it and moves up those after it. Removing
-- the entry that was just added undoes adding it.
pub edits_by_index :
    (s : InspectView) (i j : ℕ) (text : Text)
    → (get_elem? (update_env_value i text s).edited_env j ≡ (
        if nat_beq i j
        then Option.map (λ (e : EnvVar). record e { value = text }) (get_elem? s.edited_env j)
        else get_elem? s.edited_env j))
      × (get_elem? (update_env_key i text s).edited_env j ≡ (
          if nat_beq i j
          then Option.map (λ (e : EnvVar). record e { key = text }) (get_elem? s.edited_env j)
          else get_elem? s.edited_env j))
      × (get_elem? (remove_env_var i s).edited_env j
          ≡ (if ltb j i then get_elem? s.edited_env j else get_elem? s.edited_env (suc j)))
      × (remove_env_var (length s.edited_env) (add_env_var s) ≡ s)
unfolding update_env_value update_env_key remove_env_var add_env_var
edits_by_index s i j text = (
  get-change_at _ i j s.edited_env,
  get-change_at _ i j s.edited_env,
  get-remove_at i j s.edited_env,
  ap (λ es. record s { edited_env = es }) (remove_at-append s.edited_env _),
)
