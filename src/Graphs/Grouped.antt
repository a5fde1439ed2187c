-- ===== src/Graphs/Grouped.antt =====
-- The groups of the graph of a listed kind, KubeDashboard.vm.ts.
use wiremap.Base.{
  ℕ, suc, get_elem?, same_text_iff, sym, Option, false, Distinct, same_text_sym, includes-keep,
  includes-dropped, Distinct-keep, inl, inr, ◌≡◌, refl, ap, ◌∙◌, true, not, ◌||◌, none, some, List,
  [], ◌∷◌, map, arith, Text, All, includes, Bool-cases, same_text, text_eq, ◌==◌, eq_self,
}
use wiremap.KubeTypes.{KubeGraphGroup, KubeGraphNode, KubeObject}
use wiremap.Route.{is_truthy, or_else}
use wiremap.Graphs.{distinct, group_id, group_named, namespaces, kind_graph, object_node}

abbrev pub group_ids : List KubeGraphGroup → List Text
group_ids gs = map (λ (g : KubeGraphGroup). g.id) gs

-- One of the groups.
abbrev pub IsListed : KubeGraphGroup → List KubeGraphGroup → Type 0
IsListed g gs = (i : ℕ) × (get_elem? gs i ≡ some g)

-- The node is the object's: in the listed group that is named like its namespace if it has one, and
-- in no group otherwise.
pub record Shows (gs : List KubeGraphGroup) (o : KubeObject) (n : KubeGraphNode) : Type 0 where
  name : n.name ≡ o.name
  kind : n.kind ≡ o.kind
  namespace : n.namespace ≡ o.namespace
  grouped :
      is_truthy (or_else o.namespace []) ≡ true
      → (g : KubeGraphGroup) × (n.group ≡ some g.id) × (some g.name ≡ o.namespace) × IsListed g gs
  ungrouped : is_truthy (or_else o.namespace []) ≡ false → n.group ≡ none

-- One node for each object, in the same order.
abbrev pub AllShown : List KubeGraphGroup → List KubeObject → List KubeGraphNode → Type 0
AllShown gs [] [] = Unit
AllShown gs (o ∷ os) (n ∷ ns) = Shows gs o n × AllShown gs os ns
AllShown gs _ _ = ⊥

-- The group is named like the namespace of one of the objects.
abbrev pub IsUsed : List KubeObject → KubeGraphGroup → Type 0
IsUsed objects g =
    (is_truthy g.name ≡ true)
    × ((i : ℕ) × (o : KubeObject) × (get_elem? objects i ≡ some o)
        × (or_else o.namespace [] ≡ g.name))

distinct-Distinct : (xs : List Text) → Distinct (distinct xs)
unfolding distinct
distinct-Distinct [] = tt
distinct-Distinct (x ∷ xs) = (
  includes-dropped _ x (distinct xs) (rw (eq_self x) refl),
  Distinct-keep _ (distinct xs) (distinct-Distinct xs),
)

includes-distinct : (x : Text) (xs : List Text) → includes x (distinct xs) ≡ includes x xs
unfolding distinct
includes-distinct x [] = refl
includes-distinct x (y ∷ xs) = elim (Bool-cases (same_text y x)) [
  | inl e ↦ rw e refl
  | inr e ↦ rw e (
      includes-keep (λ z. not (z == y)) x (distinct xs) (ap not (same_text_sym x y e))
      ∙ includes-distinct x xs)
]

includes-group_named :
    (x : Text) (xs : List Text)
    → includes (group_id x) (group_ids (map group_named xs)) ≡ includes x xs
unfolding same_text
includes-group_named x [] = refl
includes-group_named x (y ∷ xs) = ap (λ b. same_text y x || b) (includes-group_named x xs)

Distinct-group_named : (xs : List Text) → Distinct xs → Distinct (group_ids (map group_named xs))
Distinct-group_named [] d = tt
Distinct-group_named (x ∷ xs) d = (includes-group_named x xs ∙ d.0, Distinct-group_named xs d.1)

includes-namespaces :
    (o : KubeObject) (objects : List KubeObject)
    → includes (or_else o.namespace []) (map (λ (x : KubeObject). or_else x.namespace []) objects)
      ≡ true
    → is_truthy (or_else o.namespace []) ≡ true
    → includes (or_else o.namespace []) (namespaces objects) ≡ true
unfolding namespaces
includes-namespaces o objects h t =
    includes-keep is_truthy _ (distinct _) t ∙ includes-distinct _ _ ∙ h

namespaces-Distinct : (objects : List KubeObject) → Distinct (namespaces objects)
unfolding namespaces
namespaces-Distinct objects = Distinct-keep is_truthy (distinct _) (distinct-Distinct _)

abbrev names : List KubeObject → List Text
names objects = map (λ (x : KubeObject). or_else x.namespace []) objects

group_named-IsListed :
    (x : Text) (xs : List Text)
    → includes x xs ≡ true
    → IsListed (group_named x) (map group_named xs)
group_named-IsListed x [] h = absurd (cc h)
group_named-IsListed x (y ∷ xs) h = elim (Bool-cases (same_text y x)) [
  | inl e ↦ (0, ap (λ t. some (group_named t)) ((same_text_iff y x).0 e))
  | inr e ↦ let (i, found) = group_named-IsListed x xs (ground (arith, h, e)) in (suc i, found)
]

names-object :
    (x : Text) (objects : List KubeObject)
    → includes x (names objects) ≡ true
    → (i : ℕ) × (o : KubeObject) × (get_elem? objects i ≡ some o) × (or_else o.namespace [] ≡ x)
names-object x [] h = absurd (cc h)
names-object x (o ∷ os) h = elim (Bool-cases (same_text (or_else o.namespace []) x)) [
  | inl e ↦ (0, o, refl, (same_text_iff _ x).0 e)
  | inr e ↦
      let (i, p, found, same) = names-object x os (ground (arith, h, e)) in (suc i, p, found, same)
]

namespaces-IsUsed :
    (x : Text) (objects : List KubeObject)
    → includes x (namespaces objects) ≡ true
    → IsUsed objects (group_named x)
unfolding namespaces
namespaces-IsUsed x objects h = elim (Bool-cases (is_truthy x)) [
  | inl t ↦
      let here : includes x (names objects) ≡ true =
        sym (includes-keep is_truthy x (distinct (names objects)) t ∙ includes-distinct x _) ∙ h in
      (t, names-object x objects here)
  | inr t ↦ absurd (cc (h, includes-dropped is_truthy x (distinct (names objects)) t))
]

All-group_named :
    (P : KubeGraphGroup → Type 0) (xs : List Text)
    → ((x : Text) → includes x xs ≡ true → P (group_named x))
    → All P (map group_named xs)
All-group_named P [] h = tt
All-group_named P (x ∷ xs) h =
    (h x (rw (eq_self x) refl), All-group_named P xs (λ y k. h y (ground (arith, k))))

some_name : (o : Option Text) → is_truthy (or_else o []) ≡ true → some (or_else o []) ≡ o
unfolding same_text
some_name none h = absurd (cc h)
some_name (some []) h = absurd (cc h)
some_name (some (c ∷ s)) h = refl

module _ (age : Text → Text) where
  object_node-Shows :
      (o : KubeObject) (all : List KubeObject)
      → includes (or_else o.namespace []) (names all) ≡ true
      → Shows (map group_named (namespaces all)) o (object_node age true o)
  object_node-Shows o all h = record {
    name = refl;
    kind = refl;
    namespace = refl;
    grouped = λ t. (
      group_named (or_else o.namespace []),
      rw t refl,
      some_name o.namespace t,
      group_named-IsListed _ (namespaces all) (includes-namespaces o all h t),
    );
    ungrouped = λ t. rw t refl;
  }

  objects-AllShown :
      (os all : List KubeObject)
      → ((x : Text) → includes x (names os) ≡ true → includes x (names all) ≡ true)
      → AllShown (map group_named (namespaces all)) os (map (object_node age true) os)
  objects-AllShown [] all h = tt
  objects-AllShown (o ∷ os) all h = (
    object_node-Shows o all (h _ (rw (eq_self (or_else o.namespace [])) refl)),
    objects-AllShown os all (λ x k. h x (ground (arith, k))),
  )

  objects-ungrouped :
      (os : List KubeObject)
      → All (λ (n : KubeGraphNode). n.group ≡ none) (map (object_node age false) os)
  objects-ungrouped [] = tt
  objects-ungrouped (o ∷ os) = (refl, objects-ungrouped os)

  -- The graph of a kind that is grouped by namespace has one node for each object, in the same order,
  -- with its name, kind and namespace. The node of an object that has a namespace is in the listed
  -- group of that name, and the node of any other object in no group. No group is listed twice, and
  -- each is named like the namespace of one of the objects. A graph that is not grouped has no groups
  -- and no node in one.
  pub kind_graph-AllShown :
      (objects : List KubeObject)
      → let g = kind_graph age objects true in
        let bare = kind_graph age objects false in
        AllShown g.groups objects g.nodes
        × Distinct (group_ids g.groups)
        × All (IsUsed objects) g.groups
        × (bare.groups ≡ [])
        × All (λ (n : KubeGraphNode). n.group ≡ none) bare.nodes
  unfolding kind_graph
  kind_graph-AllShown objects = (
    objects-AllShown objects objects (λ x h. h),
    Distinct-group_named (namespaces objects) (namespaces-Distinct objects),
    All-group_named (IsUsed objects) (namespaces objects) (λ x h. namespaces-IsUsed x objects h),
    refl,
    objects-ungrouped objects,
  )
