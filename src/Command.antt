-- ===== src/Command.antt =====
-- client/src/services/kubeCommand.ts. `toLowerCase` of a text is the argument `lower`: its tables
-- are not part of the client.
pub mod Words
pub mod Resolving
mod Tests
use wiremap.Base.{
  ℕ, Bool, true, false, ◌||◌, ◌&&◌, Option, none, some, List, [], ◌∷◌, ◌++◌, map, find, leb, Text,
  codes, includes, cons_head, ◌==◌, nat_eq, text_eq, if◌then◌else◌,
}
use wiremap.Blank.{is_space, trim, starts_with_space}
use wiremap.KubeTypes.{KubeKind, KubeRoot, RootLens}

-- `s.split(/\s+/)`: a run of spaces separates once, at its last space.
unfoldable pub split_spaces : Text → List Text
split_spaces [] = [] ∷ []
split_spaces (c ∷ s) =
    let rest = split_spaces s in
    if is_space c then if starts_with_space s then rest else [] ∷ rest else cons_head c rest

-- What the table holds for a word. A word that names a member of every object, such as
-- "constructor", finds that member.
pub data Found : Type 0 where
  root : KubeRoot → Found
  inherited : Found

pub record KubeCommand : Type 0 where
  pub root : Found
  pub namespace : Option Text

-- `ROOT_WORDS[word]` of a word in lower case.
unfoldable pub root_word : Text → Option Found
root_word word =
    if word == codes "overview" || word == codes "map"
    then some (Found.root KubeRoot.overview)
    else if word == codes "nodes" || word == codes "node" || word == codes "no"
    then some (Found.root (KubeRoot.lens RootLens.nodes))
    else if word == codes "storage"
    then some (Found.root (KubeRoot.lens RootLens.storage))
    else if word == codes "access"
    then some (Found.root (KubeRoot.lens RootLens.access))
    else if word == codes "constructor" || word == codes "__proto__"
    then some Found.inherited
    else none

abbrev or_empty : Option (List Text) → List Text
or_empty none = []
or_empty (some names) = names

unfoldable pub kind_names : (Text → Text) → KubeKind → List Text
kind_names lower k = lower k.kind ∷ k.resource ∷ or_empty k.short_names

abbrev kind_found : Option KubeKind → Option Found
kind_found none = none
kind_found (some k) = some (Found.root (KubeRoot.kind k.group k.kind))

abbrev or_kind : Option Found → Option KubeKind → Option Found
or_kind (some f) kind = some f
or_kind none kind = kind_found kind

-- The `root` that the code finds for a word.
unfoldable pub root_for : (Text → Text) → Text → List KubeKind → Option Found
unfolding root_word kind_names
root_for lower word kinds =
    or_kind (root_word word) (find (λ (k : KubeKind). includes word (kind_names lower k)) kinds)

-- "all" and "*" mean every namespace.
abbrev pub namespace_word : Text → Text
namespace_word ns = if ns == codes "all" || ns == codes "*" then [] else ns

abbrev command : Option Text → Option Found → Option KubeCommand
command ns none = none
command none (some f) = some (record { root = f; namespace = none })
command (some ns) (some f) = some (record { root = f; namespace = some (namespace_word ns) })

-- The code from the destructured words on.
unfoldable pub command_of_words : (Text → Text) → List Text → List KubeKind → Option KubeCommand
unfolding root_for
command_of_words lower [] kinds = none
command_of_words lower ([] ∷ ws) kinds = none
command_of_words lower ((c ∷ w) ∷ []) kinds = command none (root_for lower (c ∷ w) kinds)
command_of_words lower ((c ∷ w) ∷ ns ∷ ws) kinds = command (some ns) (root_for lower (c ∷ w) kinds)

unfoldable pub resolve_kube_command : (Text → Text) → Text → List KubeKind → Option KubeCommand
unfolding trim split_spaces command_of_words
resolve_kube_command lower input kinds =
    command_of_words lower (split_spaces (lower (trim input))) kinds
