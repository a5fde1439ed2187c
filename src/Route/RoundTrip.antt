-- ===== src/Route/RoundTrip.antt =====
-- `toKubeHash` then `parseKubeHash`.
use wiremap.Base.{
  ◌≡◌, ap, ◌∙◌, inl, inr, some, List, [], ◌∷◌, Text, codes, All, All-append, arith, Bool-cases,
  same_text, text_eq,
}
use wiremap.KubeTypes.{KubeRoot, KubeView, RootLens}
use wiremap.Route.{
  all_namespaces, no_namespace, KubeRoute, or_else, kind_segment, route_of_segments, Outcome,
  parse_kube_hash, root_segment, drill_segments, route_segments, to_kube_hash,
}
use wiremap.Route.Laws.{
  IsText, IsRoot, IsDrill, IsRoute, is_truthy_cons, is_truthy_iff, namespace_segment, or_else_nil,
  root_of-root_segment, drills_of-drill_segments, parse-write,
}

kind_segment-IsText :
    (kind group : Text) → IsText kind → IsText group → IsText (kind_segment kind group)
unfolding kind_segment
kind_segment-IsText kind [] h k = unfold same_text in h
kind_segment-IsText kind (c ∷ g) h k =
    rw (is_truthy_cons c g) (All-append _ kind _ h (inl (omega arith), k))

or_else-IsText : (s d : Text) → IsText s → IsText d → IsText (or_else (some s) d)
or_else-IsText s d h k = elim (Bool-cases (same_text s [])) [ inl e ↦ rw e k | inr e ↦ rw e h ]

root_segment-IsText : (root : KubeRoot) → IsRoot root → IsText (root_segment root)
root_segment-IsText KubeRoot.overview h = ground arith
root_segment-IsText (KubeRoot.lens RootLens.nodes) h = ground arith
root_segment-IsText (KubeRoot.lens RootLens.storage) h = ground arith
root_segment-IsText (KubeRoot.lens RootLens.access) h = ground arith
root_segment-IsText (KubeRoot.kind group kind) (g, (k, _), _) = kind_segment-IsText kind group k g

no_namespace-IsText : IsText no_namespace
no_namespace-IsText = ground arith

node-IsText : IsText (codes "Node")
node-IsText = ground arith

drill_segments-IsText : (ds : List KubeView) → All IsDrill ds → All IsText (drill_segments ds)
unfolding drill_segments
drill_segments-IsText [] h = tt
drill_segments-IsText (d ∷ ds) (IsDrill.node name t e, h) =
    rw e (
      node-IsText,
      (no_namespace-IsText, (or_else-IsText name [] t tt, drill_segments-IsText ds h)),
    )
drill_segments-IsText (d ∷ ds) (IsDrill.object ns kind group name t _ (k, _) g _ n e, h) =
    rw (e, or_else_nil kind, or_else_nil group)
      (
        kind_segment-IsText kind group k g,
        (
          or_else-IsText ns no_namespace t no_namespace-IsText,
          (or_else-IsText name [] n tt, drill_segments-IsText ds h),
        ),
      )

route_segments-IsText : (r : KubeRoute) → IsRoute r → All IsText (route_segments r)
unfolding route_segments
route_segments-IsText r h = (
  h.cluster_text,
  (
    or_else-IsText r.namespace all_namespaces h.namespace_text (ground arith),
    (root_segment-IsText r.root h.root_ok, drill_segments-IsText r.drills h.drills_ok),
  ),
)

route_of_segments-route_segments :
    (r : KubeRoute) → IsRoute r → route_of_segments (route_segments r) ≡ some r
unfolding route_of_segments route_segments
route_of_segments-route_segments r h = rw (
  is_truthy_iff r.cluster h.has_cluster,
  namespace_segment all_namespaces r.namespace (λ e. cc) h.namespace_name,
  root_of-root_segment r.root h.root_ok,
  drills_of-drill_segments r.drills h.drills_ok,
)

-- Every route that the hash can carry is read back from its hash as it was, and nothing throws.
-- Such a route has a cluster, a namespace other than "*", kinds without a dot, a kind root whose
-- segment is none of the words for the other roots, drills that are a node or an object, objects
-- whose namespace is not "-" and that are not core Nodes, and Unicode text throughout.
pub parse_kube_hash-to_kube_hash :
    (r : KubeRoute) → IsRoute r → parse_kube_hash (to_kube_hash r) ≡ Outcome.returns (some r)
unfolding to_kube_hash
parse_kube_hash-to_kube_hash r h =
    parse-write r.cluster _ (route_segments-IsText r h)
    ∙ ap Outcome.returns (route_of_segments-route_segments r h)
