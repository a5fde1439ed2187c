-- ===== src/Route/Laws.antt =====
-- Writing a route and reading it back.
use wiremap.Base.{
  ℕ, ◌≡◌, ◌≢◌, refl, sym, ap, subst, ◌∙◌, inl, inr, true, false, some, List, [], ◌∷◌, ◌++◌, map,
  Text, codes, All, Lacks, split, join, split-append, split-join, split-eq-singleton, join-split,
  arith, Bool-cases, same_text, same_text_iff, if◌then◌else◌, ◌==◌, text_eq, eq_self,
}
use wiremap.Uri.{IsScalar, encode_uri_component}
use wiremap.Uri.Laws.{decode-encode, encode-Lacks, not_written}
use wiremap.KubeTypes.{KubeRoot, KubeView, RootLens}
use wiremap.Route.{
  prefix, all_namespaces, no_namespace, KubeRoute, is_truthy, or_else, kind_segment, SplitKind,
  split_kind, root_of, node_view, object_view, drill_of, drills_of, route_of_segments, decode_all,
  Outcome, parse_kube_hash, root_segment, drill_segments,
}

-- A text of Unicode characters.
abbrev pub IsText : Text → Type 0
IsText = All IsScalar

-- A kind's name, which ends at the first dot of its segment.
abbrev pub IsKindName : Text → Type 0
IsKindName kind = IsText kind × Lacks b'.' kind

-- None of the words that name the other roots.
abbrev pub IsFreeWord : Text → Type 0
IsFreeWord s =
    (s ≢ codes "overview") × (s ≢ codes "nodes") × (s ≢ codes "storage") × (s ≢ codes "access")

abbrev pub IsRoot : KubeRoot → Type 0
IsRoot KubeRoot.overview = Unit
IsRoot (KubeRoot.lens l) = Unit
IsRoot (KubeRoot.kind group kind) = IsText group × IsKindName kind × (group ≡ [] → IsFreeWord kind)

pub data IsDrill (view : KubeView) : Type 0 where
  node : (name : Text) → IsText name → view ≡ node_view name → IsDrill view
  object :
      (namespace kind group name : Text)
      → IsText namespace
      → namespace ≢ no_namespace
      → IsKindName kind
      → IsText group
      → (kind ≡ codes "Node" → group ≢ [])
      → IsText name
      → view ≡ object_view namespace kind group name
      → IsDrill view

-- The routes that the hash can carry.
pub record IsRoute (r : KubeRoute) : Type 0 where
  pub cluster_text : IsText r.cluster
  pub has_cluster : r.cluster ≢ []
  pub namespace_text : IsText r.namespace
  pub namespace_name : r.namespace ≢ all_namespaces
  pub root_ok : IsRoot r.root
  pub drills_ok : All IsDrill r.drills

pub is_truthy_cons : (c : ℕ) (s : Text) → is_truthy (c ∷ s) ≡ true
unfolding same_text
is_truthy_cons c s = refl

pub is_truthy_iff : (s : Text) → s ≢ [] → is_truthy s ≡ true
is_truthy_iff [] h = absurd (h refl)
is_truthy_iff (c ∷ s) h = is_truthy_cons c s

pub neq_false : (s t : Text) → s ≢ t → same_text s t ≡ false
neq_false s t h = ground (arith, same_text_iff s t)

pub split_kind-kind_segment :
    (kind group : Text)
    → Lacks b'.' kind
    → split_kind (kind_segment kind group) ≡ record { kind = kind; group = group }
unfolding split_kind kind_segment
split_kind-kind_segment kind [] h = unfold same_text join in (rw (split-eq-singleton b'.' kind h))
split_kind-kind_segment kind (c ∷ g) h =
    rw (is_truthy_cons c g, split-append b'.' kind (c ∷ g) h, join-split b'.' (c ∷ g))

root_of_free :
    (s : Text) → IsFreeWord s → root_of s ≡ KubeRoot.kind (split_kind s).group (split_kind s).kind
unfolding root_of same_text split
root_of_free s (a, b, c, d) = rw (
  neq_false (codes "nodes") s (λ e. b (sym e)),
  neq_false (codes "storage") s (λ e. c (sym e)),
  neq_false (codes "access") s (λ e. d (sym e)),
  neq_false s (codes "overview") a,
)

not-Lacks-dot : (kind group : Text) → Lacks b'.' (kind ++ (codes "." ++ group)) → ⊥
not-Lacks-dot [] group h = h.0 refl
not-Lacks-dot (c ∷ kind) group h = not-Lacks-dot kind group h.1

words_Lack :
    Lacks b'.' (codes "overview")
    × Lacks b'.' (codes "nodes")
    × Lacks b'.' (codes "storage")
    × Lacks b'.' (codes "access")
words_Lack = omega arith

dotted_free : (kind group : Text) → IsFreeWord (kind ++ (codes "." ++ group))
dotted_free kind group =
    let no = not-Lacks-dot kind group in
    (
      λ e. no (subst (Lacks b'.') (sym e) words_Lack.0),
      λ e. no (subst (Lacks b'.') (sym e) words_Lack.1),
      λ e. no (subst (Lacks b'.') (sym e) words_Lack.2),
      λ e. no (subst (Lacks b'.') (sym e) words_Lack.3),
    )

kind_segment-IsFreeWord :
    (kind group : Text) → (group ≡ [] → IsFreeWord kind) → IsFreeWord (kind_segment kind group)
unfolding kind_segment same_text
kind_segment-IsFreeWord kind [] h = h refl
kind_segment-IsFreeWord kind (c ∷ g) h = dotted_free kind (c ∷ g)

pub root_of-root_segment : (root : KubeRoot) → IsRoot root → root_of (root_segment root) ≡ root
root_of-root_segment KubeRoot.overview h = unfold root_of same_text in refl
root_of-root_segment (KubeRoot.lens RootLens.nodes) h = unfold root_of same_text in refl
root_of-root_segment (KubeRoot.lens RootLens.storage) h = unfold root_of same_text in refl
root_of-root_segment (KubeRoot.lens RootLens.access) h = unfold root_of same_text in refl
root_of-root_segment (KubeRoot.kind group kind) (_, (_, dots), free) =
    root_of_free _ (kind_segment-IsFreeWord kind group free)
    ∙ ap (λ (k : SplitKind). KubeRoot.kind k.group k.kind) (split_kind-kind_segment kind group dots)

drill_of_node :
    (name : Text) → drill_of (split_kind (codes "Node")) no_namespace name ≡ node_view name
unfolding drill_of split_kind split join same_text
drill_of_node name = refl

drill_of_object :
    (namespace kind group name : Text)
    → (kind ≡ codes "Node" → group ≢ [])
    → drill_of (record { kind = kind; group = group }) namespace name
      ≡ object_view (if namespace == no_namespace then [] else namespace) kind group name
unfolding drill_of
drill_of_object namespace kind group name h = elim (Bool-cases (same_text kind (codes "Node"))) [
  | inl e ↦ rw (e, is_truthy_iff group (h ((same_text_iff _ _).0 e)))
  | inr e ↦ rw e
]

-- A namespace as it is written and read.
pub namespace_segment :
    (fallback ns : Text)
    → fallback ≢ []
    → ns ≢ fallback
    → (if or_else (some ns) fallback == fallback then [] else or_else (some ns) fallback) ≡ ns
namespace_segment fallback [] f h = unfold same_text in rw (eq_self fallback)
namespace_segment fallback (c ∷ ns) f h = rw (is_truthy_cons c ns, neq_false _ _ h)

pub or_else_nil : (s : Text) → or_else (some s) [] ≡ s
or_else_nil [] = unfold same_text in refl
or_else_nil (c ∷ s) = rw (is_truthy_cons c s)

pub drills_of-drill_segments :
    (ds : List KubeView) → All IsDrill ds → drills_of (drill_segments ds) ≡ ds
unfolding drills_of drill_segments
drills_of-drill_segments [] h = refl
drills_of-drill_segments (d ∷ ds) (IsDrill.node name t e, h) =
    rw (e, or_else_nil name, drills_of-drill_segments ds h, drill_of_node name)
drills_of-drill_segments (d ∷ ds) (IsDrill.object ns kind group name t n (_, dots) g k _ e, h) =
    rw (
      e,
      or_else_nil name,
      or_else_nil kind,
      or_else_nil group,
      drills_of-drill_segments ds h,
      split_kind-kind_segment kind group dots,
      drill_of_object _ kind group name k,
      namespace_segment no_namespace ns (λ p. cc) n,
    )

decode_all-encode :
    (ss : List Text) → All IsText ss → decode_all (map encode_uri_component ss) ≡ some ss
unfolding decode_all
decode_all-encode [] h = refl
decode_all-encode (s ∷ ss) h = rw (decode-encode s h.0, decode_all-encode ss h.1)

encode-All-Lacks : (ss : List Text) → All IsText ss → All (Lacks b'/') (map encode_uri_component ss)
encode-All-Lacks [] h = tt
encode-All-Lacks (s ∷ ss) h =
    (encode-Lacks b'/' not_written.0 (ground arith) s h.0, encode-All-Lacks ss h.1)

-- Reading what was written from any segments of Unicode text gives the segments.
pub parse-write :
    (s : Text) (ss : List Text)
    → All IsText (s ∷ ss)
    → parse_kube_hash (prefix ++ join b'/' (map encode_uri_component (s ∷ ss)))
      ≡ Outcome.returns (route_of_segments (s ∷ ss))
unfolding parse_kube_hash
parse-write s ss h = rw (
  split-join b'/' (encode_uri_component s) (map encode_uri_component ss)
      (encode-All-Lacks (s ∷ ss) h),
  decode_all-encode (s ∷ ss) h,
)
