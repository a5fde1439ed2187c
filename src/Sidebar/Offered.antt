-- ===== src/Sidebar/Offered.antt =====
-- What the sidebar offers, KubeSidebar.vm.ts.
use wiremap.Base.{
  eq_self, text_eq, includes-kept, ℕ, ◌≡◌, refl, sym, ap, ◌∙◌, inl, inr, Bool, true, false, not,
  ◌||◌, Option, none, some, List, [], ◌∷◌, ◌++◌, map, keep, arith, Text, All, includes,
  includes-append, includes-keep, includes-dropped, Distinct, Distinct-keep, Distinct-append,
  Bool-cases, same_text, if◌then◌else◌, subst,
}
use wiremap.KubeTypes.{KubeKind, KubeRoot}
use wiremap.Sidebar.{
  Item, Section, SectionEntry, kind_entry, all_sections, entries_of, is_served, keys_of, kind_key,
  kind_keys, others, pinned, sections, to_item, has_items,
}

module _ {ℓ} {A : Type ℓ} (p : A → Bool) where
  keep-append : (xs ys : List A) → keep p (xs ++ ys) ≡ keep p xs ++ keep p ys
  keep-append [] ys = refl
  keep-append (x ∷ xs) ys = elim (Bool-cases (p x)) [
    | inl e ↦ rw (e, keep-append xs ys)
    | inr e ↦ rw (e, keep-append xs ys)
  ]

map-append {ℓ κ} :
    {A : Type ℓ} {B : Type κ} (f : A → B) (xs ys : List A) → map f (xs ++ ys) ≡ map f xs ++ map f ys
map-append f [] ys = refl
map-append f (x ∷ xs) ys = ap (λ t. f x ∷ t) (map-append f xs ys)

-- All items, whatever section they stand in.
abbrev pub items_of : List (Text × List Item) → List Item
items_of [] = []
items_of ((label, items) ∷ rest) = items ++ items_of rest

-- The entries that are shown in the sections.
abbrev pub shown : List KubeKind → List SectionEntry
shown kinds = keep (is_served kinds) (entries_of all_sections)

keys_of-keep :
    (kinds : List KubeKind) (es : List SectionEntry)
    → keys_of (keep (is_served kinds) es)
      ≡ keep (λ key. includes key (kind_keys kinds)) (keys_of es)
keys_of-keep kinds [] = refl
keys_of-keep kinds (e ∷ es) = go (keys_of-keep kinds es) e.count_key
  where
    go :
        (keys_of (keep (is_served kinds) es)
          ≡ keep (λ key. includes key (kind_keys kinds)) (keys_of es))
        → (o : Option Text)
        → keys_of (
            if elim o [ none ↦ true | some key ↦ includes key (kind_keys kinds) ]
            then record e { count_key = o } ∷ keep (is_served kinds) es
            else keep (is_served kinds) es)
          ≡ keep
              (λ key. includes key (kind_keys kinds))
              (elim o [ none ↦ keys_of es | some key ↦ key ∷ keys_of es ])
    go ih none = ih
    go ih (some key) = elim (Bool-cases (includes key (kind_keys kinds))) [
      | inl h ↦ rw h (ap (λ t. key ∷ t) ih)
      | inr h ↦ rw h ih
    ]

pinned-Distinct : Distinct (keys_of (entries_of all_sections))
unfolding all_sections same_text kind_entry
pinned-Distinct = (
  refl,
  (
    refl,
    (
      refl,
      (
        refl,
        (
          refl,
          (
            refl,
            (
              refl,
              (
                refl,
                (
                  refl,
                  (
                    refl,
                    (
                      refl,
                      (
                        refl,
                        (
                          refl,
                          (
                            refl,
                            (
                              refl,
                              (
                                refl,
                                (
                                  refl,
                                  (
                                    refl,
                                    (
                                      refl,
                                      (refl, (refl, (refl, (refl, (refl, (refl, (refl, tt))))))),
                                    ),
                                  ),
                                ),
                              ),
                            ),
                          ),
                        ),
                      ),
                    ),
                  ),
                ),
              ),
            ),
          ),
        ),
      ),
    ),
  ),
)

module _ (counts : Text → Option ℕ) (root : KubeRoot) where
  items_of-keep :
      (xs : List (Text × List Item)) → items_of (keep (has_items counts root) xs) ≡ items_of xs
  items_of-keep [] = refl
  items_of-keep ((label, []) ∷ xs) = items_of-keep xs
  items_of-keep ((label, i ∷ is) ∷ xs) = ap (λ t. (i ∷ is) ++ t) (items_of-keep xs)

  items_of-map :
      (kinds : List KubeKind) (ss : List Section)
      → items_of (
          map
            (λ (s : Section).
              (s.label, map (to_item counts root) (keep (is_served kinds) s.entries)))
            ss)
        ≡ map (to_item counts root) (keep (is_served kinds) (entries_of ss))
  items_of-map kinds [] = refl
  items_of-map kinds (s ∷ ss) =
      rw (items_of-map kinds ss, keep-append (is_served kinds) s.entries (entries_of ss))
        (sym (map-append (to_item counts root) _ _))

  items_of-sections :
      (kinds : List KubeKind)
      → items_of (sections counts root kinds) ≡ map (to_item counts root) (shown kinds)
  unfolding sections
  items_of-sections kinds =
      items_of-keep (
        map
          (λ (s : Section). (s.label, map (to_item counts root) (keep (is_served kinds) s.entries)))
          all_sections)
      ∙ items_of-map kinds all_sections

  ids-others :
      (kinds : List KubeKind)
      → map (λ (i : Item). i.id) (others counts root kinds)
        ≡ keep (λ x. not (includes x pinned)) (kind_keys kinds)
  unfolding others
  ids-others [] = refl
  ids-others (k ∷ kinds) = elim (Bool-cases (includes (kind_key k.group k.kind) pinned)) [
    | inl e ↦ rw e (ids-others kinds)
    | inr e ↦ rw e (ap (λ t. kind_key k.group k.kind ∷ t) (ids-others kinds))
  ]

  -- The keys that the sections count, and the ids of the other items.
  abbrev pub offered : List KubeKind → List Text
  offered kinds = keys_of (shown kinds) ++ map (λ (i : Item). i.id) (others counts root kinds)

  offered-eq :
      (kinds : List KubeKind)
      → offered kinds
        ≡ keep (λ key. includes key (kind_keys kinds)) pinned
          ++ keep (λ x. not (includes x pinned)) (kind_keys kinds)
  unfolding pinned
  offered-eq kinds = rw (keys_of-keep kinds (entries_of all_sections), ids-others kinds)

split_sets :
    (p q : List Text) (x : Text)
    → includes x (keep (λ y. includes y q) p ++ keep (λ y. not (includes y p)) q) ≡ includes x q
split_sets p q x =
    includes-append x (keep (λ y. includes y q) p) (keep (λ y. not (includes y p)) q)
    ∙ elim (Bool-cases (includes x p)) [
      | inl h ↦ rw (includes-dropped (λ y. not (includes y p)) x q (ap not h)) (first_part h)
      | inr h ↦
          rw
            (
              includes-keep (λ y. not (includes y p)) x q (ap not h),
              includes-kept (λ y. includes y q) x p h,
            )
            refl
    ]
  where
    first_part :
        includes x p ≡ true → includes x (keep (λ y. includes y q) p) || false ≡ includes x q
    first_part h = elim (Bool-cases (includes x q)) [
      | inl k ↦ rw (includes-keep (λ y. includes y q) x p k, h, k) refl
      | inr k ↦ rw (includes-dropped (λ y. includes y q) x p k, k) refl
    ]

All-includes {ℓ} :
    (P : Text → Type ℓ) (xs : List Text) → ((x : Text) → includes x xs ≡ true → P x) → All P xs
All-includes P [] f = tt
All-includes P (x ∷ xs) f =
    (f x (rw (eq_self x) refl), All-includes P xs (λ y h. f y (ground (arith, h))))

split-Distinct :
    (p q : List Text)
    → Distinct p
    → Distinct q
    → Distinct (keep (λ y. includes y q) p ++ keep (λ y. not (includes y p)) q)
split-Distinct p q d e =
    Distinct-append _ _ (Distinct-keep (λ y. includes y q) p d)
      (Distinct-keep (λ y. not (includes y p)) q e)
      (All-includes _ (keep (λ y. includes y q) p) apart)
  where
    apart :
        (x : Text)
        → includes x (keep (λ y. includes y q) p) ≡ true
        → includes x (keep (λ y. not (includes y p)) q) ≡ false
    apart x h = elim (Bool-cases (includes x p)) [
      | inl k ↦ includes-dropped (λ y. not (includes y p)) x q (ap not k)
      | inr k ↦ absurd (ground (arith, h, includes-kept (λ y. includes y q) x p k))
    ]

-- The sections' items are exactly the entries of the table that have no key or a served one. If the
-- keys of the served kinds are distinct, then the keys of these entries and the ids of the other
-- items are together exactly the keys of the served kinds, each once.
pub offered-served :
    (counts : Text → Option ℕ) (root : KubeRoot) (kinds : List KubeKind)
    → Distinct (kind_keys kinds)
    → (items_of (sections counts root kinds) ≡ map (to_item counts root) (shown kinds))
      × ((x : Text) → includes x (offered counts root kinds) ≡ includes x (kind_keys kinds))
      × Distinct (offered counts root kinds)
offered-served counts root kinds d =
    let same = offered-eq counts root kinds in
    (
      items_of-sections counts root kinds,
      λ x. ap (includes x) same ∙ split_sets pinned (kind_keys kinds) x,
      subst Distinct (sym same)
          (split-Distinct pinned (kind_keys kinds) (unfold pinned in pinned-Distinct) d),
    )
