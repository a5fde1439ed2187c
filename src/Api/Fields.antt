-- ===== src/Api/Fields.antt =====
-- What stands in the query of a view's topology under each key.
use wiremap.Base.{
  false, none, ◌++◌, includes, Bool-cases, inr, same_text, ◌==◌, text_eq, if◌then◌else◌, inl, ◌≡◌,
  refl, ◌∙◌, Option, some, List, [], ◌∷◌, Text, codes, arith,
}
use wiremap.Route.{is_truthy}
use wiremap.KubeTypes.{KubeLens, KubeView}
use wiremap.Api.{lens_field, lens_word, level_word, optional, topology_fields}

-- The first value under a key.
abbrev pub lookup : Text → List (Text × Text) → Option Text
lookup key [] = none
lookup key ((k, value) ∷ fs) = if k == key then some value else lookup key fs

abbrev or_first : Option Text → Option Text → Option Text
or_first none b = b
or_first (some a) b = some a

-- A value that is given: not the empty text.
abbrev pub given : Option Text → Option Text
given none = none
given (some value) = if is_truthy value then some value else none

abbrev pub lens_text : Option KubeLens → Option Text
lens_text none = none
lens_text (some l) = some (lens_word l)

abbrev pick : Text → Text → Option Text → Option Text
pick key k o = if k == key then given o else none

lookup-append :
    (key : Text) (fs gs : List (Text × Text))
    → lookup key (fs ++ gs) ≡ or_first (lookup key fs) (lookup key gs)
lookup-append key [] gs = refl
lookup-append key ((k, value) ∷ fs) gs = elim (Bool-cases (same_text k key)) [
  | inl e ↦ rw e refl
  | inr e ↦ rw e (lookup-append key fs gs)
]

lookup-optional : (key k : Text) (o : Option Text) → lookup key (optional k o) ≡ pick key k o
lookup-optional key k none = ground arith
lookup-optional key k (some value) = ground arith

lens_field-optional : (o : Option KubeLens) → lens_field o ≡ optional (codes "lens") (lens_text o)
unfolding same_text
lens_field-optional none = refl
lens_field-optional (some KubeLens.namespaces) = refl
lens_field-optional (some KubeLens.nodes) = refl
lens_field-optional (some KubeLens.storage) = refl
lens_field-optional (some KubeLens.access) = refl

lookup-topology_fields :
    (key : Text) (v : KubeView)
    → lookup key (topology_fields v) ≡ (
        if codes "level" == key
        then some (level_word v.level)
        else or_first (pick key (codes "lens") (lens_text v.lens)) (
            or_first (pick key (codes "namespace") v.namespace) (
              or_first
                (pick key (codes "kind") v.kind)
                (or_first (pick key (codes "group") v.group) (pick key (codes "name") v.name)))))
unfolding topology_fields
lookup-topology_fields key v =
    rw
      (
        lens_field-optional v.lens,
        lookup-append key (optional (codes "lens") (lens_text v.lens)) _,
        lookup-append key (optional (codes "namespace") v.namespace) _,
        lookup-append key (optional (codes "kind") v.kind) _,
        lookup-append key (optional (codes "group") v.group) _,
        lookup-optional key (codes "lens") (lens_text v.lens),
        lookup-optional key (codes "namespace") v.namespace,
        lookup-optional key (codes "kind") v.kind,
        lookup-optional key (codes "group") v.group,
        lookup-optional key (codes "name") v.name,
      )
      refl

first_none : (a : Option Text) → or_first a none ≡ a
first_none none = refl
first_none (some x) = refl

abbrev pub view_keys : List Text
view_keys =
    codes "level"
    ∷ codes "lens"
    ∷ codes "namespace"
    ∷ codes "kind"
    ∷ codes "group"
    ∷ codes "name"
    ∷ []

-- The fields of a view: each key holds the view's value, and no other key holds one.
pub record IsFieldsOf (v : KubeView) (fs : List (Text × Text)) : Type 0 where
  level : lookup (codes "level") fs ≡ some (level_word v.level)
  lens : lookup (codes "lens") fs ≡ lens_text v.lens
  namespace : lookup (codes "namespace") fs ≡ given v.namespace
  kind : lookup (codes "kind") fs ≡ given v.kind
  group : lookup (codes "group") fs ≡ given v.group
  name : lookup (codes "name") fs ≡ given v.name
  others : (key : Text) → includes key view_keys ≡ false → lookup key fs ≡ none

lens_given : (o : Option KubeLens) → or_first (given (lens_text o)) none ≡ lens_text o
unfolding same_text
lens_given none = refl
lens_given (some KubeLens.namespaces) = refl
lens_given (some KubeLens.nodes) = refl
lens_given (some KubeLens.storage) = refl
lens_given (some KubeLens.access) = refl

others_none :
    (key : Text) (v : KubeView)
    → includes key view_keys ≡ false
    → (if codes "level" == key
        then some (level_word v.level)
        else or_first (pick key (codes "lens") (lens_text v.lens)) (
            or_first (pick key (codes "namespace") v.namespace) (
              or_first
                (pick key (codes "kind") v.kind)
                (or_first (pick key (codes "group") v.group) (pick key (codes "name") v.name)))))
      ≡ none
others_none key v h = ground arith

pub topology_fields-IsFieldsOf : (v : KubeView) → IsFieldsOf v (topology_fields v)
unfolding same_text
topology_fields-IsFieldsOf v = record {
  level = lookup-topology_fields (codes "level") v;
  lens = lookup-topology_fields (codes "lens") v ∙ lens_given v.lens;
  namespace = lookup-topology_fields (codes "namespace") v ∙ first_none (given v.namespace);
  kind = lookup-topology_fields (codes "kind") v ∙ first_none (given v.kind);
  group = lookup-topology_fields (codes "group") v ∙ first_none (given v.group);
  name = lookup-topology_fields (codes "name") v;
  others = λ key h. lookup-topology_fields key v ∙ others_none key v h;
}
