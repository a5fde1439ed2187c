-- ===== src/EnvEditor/Entries.antt =====
-- What saving sends for the entries that are shown, InspectView.vm.ts.
use wiremap.Base.{
  length, Bool-cases, ℕ, ◌≡◌, refl, sym, ap, ◌∙◌, inl, inr, false, not, none, some, List, [], ◌∷◌,
  ◌++◌, map, keep, arith, Text, All, Lacks, drop_last, take, drop, suc,
}
use wiremap.EnvEditor.{
  EnvVar, InspectView, index_of, env_var, env_vars, payload, entry, is_blank, is_secret,
  start_editing,
}

-- The text of an entry that has an equals sign, and whose name is not blank.
abbrev pub IsEntry : Text → Type 0
IsEntry s = (k : Text) × (v : Text) × (s ≡ k ++ (b'=' ∷ v)) × Lacks b'=' k × (is_blank k ≡ false)

index_of-append : (k v : Text) → Lacks b'=' k → index_of b'=' (k ++ (b'=' ∷ v)) ≡ some (length k)
unfolding index_of
index_of-append [] v h = refl
index_of-append (c ∷ k) v h = ground (arith, index_of-append k v h.1)

index_of-none : (s : Text) → Lacks b'=' s → index_of b'=' s ≡ none
unfolding index_of
index_of-none [] h = refl
index_of-none (c ∷ s) h = ground (arith, index_of-none s h.1)

take-append : (k v : Text) → take (length k) (k ++ v) ≡ k
take-append [] v = refl
take-append (c ∷ k) v = ap (λ t. c ∷ t) (take-append k v)

drop-append : (k : Text) (c : ℕ) (v : Text) → drop (suc (length k)) (k ++ (c ∷ v)) ≡ v
drop-append [] c v = refl
drop-append (d ∷ k) c v = drop-append k c v

-- Reading an entry gives the name and the value that it was made of.
pub env_var-entry :
    (k v : Text)
    → Lacks b'=' k
    → env_var (k ++ (b'=' ∷ v)) ≡ record { key = k; value = v; is_sensitive = is_secret k }
unfolding env_var
env_var-entry k v h = rw (index_of-append k v h, take-append k (b'=' ∷ v), drop-append k b'=' v)

payload-cons :
    (e : EnvVar) (es : List EnvVar)
    → is_blank e.key ≡ false
    → payload (e ∷ es) ≡ entry e ∷ payload es
unfolding payload
payload-cons e es h = rw h

payload-map : (env : List Text) → All IsEntry env → payload (map env_var env) ≡ env
payload-map [] h = unfold payload in refl
payload-map (s ∷ env) h =
    let (k, v, e, lacks, named) = h.0 in
    let read = ap env_var e ∙ env_var-entry k v lacks in
    payload-cons (env_var s) (map env_var env) (ap (λ (x : EnvVar). is_blank x.key) read ∙ named)
    ∙ ap (λ t. t ∷ payload (map env_var env)) (ap entry read ∙ sym e)
    ∙ ap (λ ts. s ∷ ts) (payload-map env h.1)

-- If each entry of a container is a name that is not blank, an equals sign and a value, then editing
-- and saving at once sends the entries as they are.
pub payload-start_editing :
    (env : List Text) (s : InspectView)
    → All IsEntry env
    → payload (start_editing (some env) s).edited_env ≡ env
unfolding start_editing env_vars
payload-start_editing env s h = payload-map env h

-- The edited entry as it would be shown again.
abbrev pub again : EnvVar → EnvVar
again e = record e { is_sensitive = is_secret e.key }

-- If no edited name has an equals sign, then reading what saving sends shows exactly the edited
-- entries whose name is not blank, with the secrets told anew by their names.
pub env_vars-payload :
    (es : List EnvVar)
    → All (λ (e : EnvVar). Lacks b'=' e.key) es
    → env_vars (some (payload es)) ≡ map again (keep (λ (e : EnvVar). not (is_blank e.key)) es)
unfolding env_vars payload
env_vars-payload [] h = refl
env_vars-payload (e ∷ es) h = elim (Bool-cases (is_blank e.key)) [
  | inl b ↦ rw b (env_vars-payload es h.1)
  | inr b ↦
      rw (b, env_var-entry e.key e.value h.0) (ap (λ xs. again e ∷ xs) (env_vars-payload es h.1))
]

-- An entry that is a name alone, without an equals sign, is sent back as an entry with one: the
-- name without its last character, and the whole name as the value. This needs a name that is not
-- blank without its last character.
pub start_editing-bare :
    (name : Text) (s : InspectView)
    → Lacks b'=' name
    → is_blank (drop_last name) ≡ false
    → payload (start_editing (some (name ∷ [])) s).edited_env
      ≡ (drop_last name ++ (b'=' ∷ name)) ∷ []
unfolding start_editing env_vars env_var payload
start_editing-bare name s h b = rw (index_of-none name h, b)
