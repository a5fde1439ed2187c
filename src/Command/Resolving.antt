-- ===== src/Command/Resolving.antt =====
-- What `resolveKubeCommand` of kubeCommand.ts finds for a typed line.
use wiremap.Base.{
  not_none-some, ℕ, ◌≡◌, refl, sym, ap, ◌∙◌, ◌↔◌, inl, inr, Bool, true, false, Option, none, some,
  List, [], ◌∷◌, ◌++◌, find, arith, Text, codes, includes, All, Option-cases, same_text,
}
use mathlib.Core.Option
use wiremap.KubeTypes.{KubeKind, KubeRoot}
use wiremap.Command.{
  Found, KubeCommand, root_word, kind_names, root_for, or_kind, namespace_word, command_of_words,
  resolve_kube_command,
}
use wiremap.Blank.Laws.{Spaces, IsWord, IsTight, trim-append}
use wiremap.Command.Words.{split_one, split_two}

module _ {ℓ} {A : Type ℓ} (p : A → Bool) where
  find-first :
      (before : List A) (a : A) (after : List A)
      → All (λ x. p x ≡ false) before
      → p a ≡ true
      → find p (before ++ (a ∷ after)) ≡ some a
  find-first [] a after h e = rw e
  find-first (x ∷ before) a after h e = rw (h.0, find-first before a after h.1 e)

  find-none : (xs : List A) → (find p xs ≡ none) ↔ All (λ x. p x ≡ false) xs
  find-none [] = (λ _. tt, λ _. refl)
  find-none (x ∷ xs) = ground (arith, find-none xs)

module _ (lower : Text → Text) where
  -- The kind goes by the word: its name in lower case, its resource or a short name.
  abbrev pub goes_by : Text → KubeKind → Bool
  goes_by word k = includes word (kind_names lower k)

  pub root_for-kind :
      (word : Text) (before : List KubeKind) (k : KubeKind) (after : List KubeKind)
      → root_word word ≡ none
      → All (λ j. goes_by word j ≡ false) before
      → goes_by word k ≡ true
      → root_for lower word (before ++ (k ∷ after))
        ≡ some (Found.root (KubeRoot.kind k.group k.kind))
  unfolding root_for
  root_for-kind word before k after r h e = rw (r, find-first (goes_by word) before k after h e)

  or_kind-none :
      (f : Option Found) (k : Option KubeKind) → (or_kind f k ≡ none) ↔ ((f ≡ none) × (k ≡ none))
  or_kind-none none none = ground arith
  or_kind-none none (some k) = (λ e. cc, λ e. cc)
  or_kind-none (some f) k = (λ e. cc, λ e. cc)

  pub root_for-none :
      (word : Text) (kinds : List KubeKind)
      → (root_for lower word kinds ≡ none)
        ↔ ((root_word word ≡ none) × All (λ k. goes_by word k ≡ false) kinds)
  unfolding root_for
  root_for-none word kinds =
      let by_parts = or_kind-none (root_word word) (find (goes_by word) kinds) in
      let by_kinds = find-none (goes_by word) kinds in
      (λ e. ((by_parts.0 e).0, by_kinds.0 (by_parts.0 e).1), λ e. by_parts.1 (e.0, by_kinds.1 e.1))

  root_for-inherited :
      (kinds : List KubeKind) → root_for lower (codes "constructor") kinds ≡ some Found.inherited
  unfolding root_for root_word same_text
  root_for-inherited kinds = refl

  abbrev pub with_namespace : Option Text → Found → KubeCommand
  with_namespace ns f = record { root = f; namespace = ns }

  one_word :
      (c : ℕ) (word : Text) (kinds : List KubeKind)
      → command_of_words lower ((c ∷ word) ∷ []) kinds
        ≡ Option.map (with_namespace none) (root_for lower (c ∷ word) kinds)
  unfolding command_of_words
  one_word c word kinds = elim (Option-cases (root_for lower (c ∷ word) kinds)) [
    | inl e ↦ rw e
    | inr (f, e) ↦ rw e
  ]

  two_words :
      (c : ℕ) (word ns : Text) (kinds : List KubeKind)
      → command_of_words lower ((c ∷ word) ∷ ns ∷ []) kinds
        ≡ Option.map (with_namespace (some (namespace_word ns))) (root_for lower (c ∷ word) kinds)
  unfolding command_of_words
  two_words c word ns kinds = elim (Option-cases (root_for lower (c ∷ word) kinds)) [
    | inl e ↦ rw e
    | inr (f, e) ↦ rw e
  ]

  module _ (front line back : Text) (f : Spaces front) (t : IsTight line) (b : Spaces back) where
    -- A line of one word, with any spaces around it.
    pub resolve_one :
        (c : ℕ) (word : Text) (kinds : List KubeKind)
        → lower line ≡ c ∷ word
        → IsWord (c ∷ word)
        → resolve_kube_command lower (front ++ (line ++ back)) kinds
          ≡ Option.map (with_namespace none) (root_for lower (c ∷ word) kinds)
    unfolding resolve_kube_command
    resolve_one c word kinds e h =
        rw (trim-append front line back t f b, e, split_one (c ∷ word) h) (one_word c word kinds)

    -- A line of two words, with any spaces around and between them.
    pub resolve_two :
        (c : ℕ) (word : Text) (g : ℕ) (gap : Text) (d : ℕ) (ns : Text) (kinds : List KubeKind)
        → lower line ≡ (c ∷ word) ++ (g ∷ (gap ++ (d ∷ ns)))
        → IsWord (c ∷ word)
        → Spaces (g ∷ gap)
        → IsWord (d ∷ ns)
        → resolve_kube_command lower (front ++ (line ++ back)) kinds
          ≡ Option.map
              (with_namespace (some (namespace_word (d ∷ ns))))
              (root_for lower (c ∷ word) kinds)
    unfolding resolve_kube_command
    resolve_two c word g gap d ns kinds e h k l =
        rw (trim-append front line back t f b, e)
          (ap (λ ws. command_of_words lower ws kinds) (split_two (c ∷ word) g gap d ns h k l)
            ∙ two_words c (word) (d ∷ ns) kinds)

    -- Let the line, spaces around it aside, be two words in lower case, a name and a namespace,
    -- with spaces between them. If the name is no word of the table and a kind goes by it, while no
    -- earlier kind does, then the command is that kind in that namespace, where "all" and "*" stand
    -- for every namespace.
    pub resolve-kind :
        (c : ℕ) (word : Text) (g : ℕ) (gap : Text) (d : ℕ) (ns : Text)
        → (before : List KubeKind) (k : KubeKind) (after : List KubeKind)
        → lower line ≡ (c ∷ word) ++ (g ∷ (gap ++ (d ∷ ns)))
        → IsWord (c ∷ word)
        → Spaces (g ∷ gap)
        → IsWord (d ∷ ns)
        → root_word (c ∷ word) ≡ none
        → All (λ j. goes_by (c ∷ word) j ≡ false) before
        → goes_by (c ∷ word) k ≡ true
        → resolve_kube_command lower (front ++ (line ++ back)) (before ++ (k ∷ after))
          ≡ some (record {
            root = Found.root (KubeRoot.kind k.group k.kind);
            namespace = some (namespace_word (d ∷ ns));
          })
    resolve-kind c word g gap d ns before k after e hw hg hn r u v =
        resolve_two c word g gap d ns (before ++ (k ∷ after)) e hw hg hn
        ∙ ap (Option.map (with_namespace (some (namespace_word (d ∷ ns)))))
            (root_for-kind (c ∷ word) before k after r u v)

    -- A line of one word in lower case, spaces around it aside, is an unknown command exactly if
    -- the word is not in the table and no kind goes by it.
    pub resolve-none :
        (c : ℕ) (word : Text) (kinds : List KubeKind)
        → lower line ≡ c ∷ word
        → IsWord (c ∷ word)
        → (resolve_kube_command lower (front ++ (line ++ back)) kinds ≡ none)
          ↔ ((root_word (c ∷ word) ≡ none) × All (λ k. goes_by (c ∷ word) k ≡ false) kinds)
    resolve-none c word kinds e h =
        let same = resolve_one c word kinds e h in
        let known = root_for-none (c ∷ word) kinds in
        elim (Option-cases (root_for lower (c ∷ word) kinds)) [
          | inl n ↦ (λ _. known.0 n, λ _. same ∙ ap (Option.map (with_namespace none)) n)
          | inr (r, s) ↦ (
            λ n. absurd (not_none-some (sym n ∙ same ∙ ap (Option.map (with_namespace none)) s)),
            λ n. absurd (not_none-some (sym (known.1 n) ∙ s)),
          )
        ]

    -- The word "constructor", in any case and with any spaces around it, is a command whose root is
    -- the member that every object inherits, whatever kinds the cluster serves.
    pub resolve-inherited :
        (kinds : List KubeKind)
        → lower line ≡ codes "constructor"
        → resolve_kube_command lower (front ++ (line ++ back)) kinds
          ≡ some (with_namespace none Found.inherited)
    resolve-inherited kinds e =
        resolve_one _ _ kinds e (ground arith)
        ∙ ap (Option.map (with_namespace none)) (root_for-inherited kinds)
