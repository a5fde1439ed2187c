-- ===== src/Api/Topology.antt =====
-- What a server reads from the URL of a topology.
use wiremap.Base.{
  true, none, same_text, text_eq, ◌≡◌, refl, ap, ◌∙◌, Option, some, List, [], ◌∷◌, append_assoc,
  Text, All, All-append, codes, join,
}
use wiremap.Uri.Query.{IsField, IsText, read_url, read_url-url_of, url_of}
use wiremap.Route.{or_else}
use wiremap.KubeTypes.{KubeLens, KubeLevel, KubeView}
use wiremap.Api.{lens_field, level_word, optional, k8s_path, topology_fields, topology_url}
use wiremap.Api.Urls.{IsText-low, is_low, cluster_segments, cluster_segments-IsText}
use wiremap.Api.Fields.{IsFieldsOf, topology_fields-IsFieldsOf}

topology_url-url_of :
    (cluster : Text) (v : KubeView)
    → topology_url cluster v
      ≡ url_of (cluster_segments cluster (codes "topology" ∷ [])) (topology_fields v)
unfolding topology_url k8s_path join
topology_url-url_of cluster v = simp append_assoc

-- The view's texts hold Unicode text.
pub record IsTextView (v : KubeView) : Type 0 where
  pub namespace_text : IsText (or_else v.namespace [])
  pub kind_text : IsText (or_else v.kind [])
  pub group_text : IsText (or_else v.group [])
  pub name_text : IsText (or_else v.name [])

optional-IsField :
    (key : Text) (o : Option Text)
    → IsText key
    → IsText (or_else o [])
    → All IsField (optional key o)
unfolding same_text
optional-IsField key none k h = tt
optional-IsField key (some []) k h = tt
optional-IsField key (some (c ∷ s)) k h = ((k, h), tt)

level_word-IsText : (l : KubeLevel) → IsText (level_word l)
level_word-IsText KubeLevel.cluster = IsText-low (codes "cluster") refl
level_word-IsText KubeLevel.namespace = IsText-low (codes "namespace") refl
level_word-IsText KubeLevel.object = IsText-low (codes "object") refl
level_word-IsText KubeLevel.node = IsText-low (codes "node") refl
level_word-IsText KubeLevel.kind = IsText-low (codes "kind") refl

lens_field-IsField : (o : Option KubeLens) → All IsField (lens_field o)
lens_field-IsField none = tt
lens_field-IsField (some KubeLens.namespaces) =
    ((IsText-low (codes "lens") refl, IsText-low (codes "namespaces") refl), tt)
lens_field-IsField (some KubeLens.nodes) =
    ((IsText-low (codes "lens") refl, IsText-low (codes "nodes") refl), tt)
lens_field-IsField (some KubeLens.storage) =
    ((IsText-low (codes "lens") refl, IsText-low (codes "storage") refl), tt)
lens_field-IsField (some KubeLens.access) =
    ((IsText-low (codes "lens") refl, IsText-low (codes "access") refl), tt)

topology_fields-IsField : (v : KubeView) → IsTextView v → All IsField (topology_fields v)
unfolding topology_fields
topology_fields-IsField v h =
    let field = λ (key : Text) (o : Option Text) (k : is_low key ≡ true).
      optional-IsField key o (IsText-low key k) in
    (
      (IsText-low (codes "level") refl, level_word-IsText v.level),
      All-append _ _ _ (lens_field-IsField v.lens) (
          All-append _ _ _ (field (codes "namespace") v.namespace refl h.namespace_text) (
            All-append _ _ _ (field (codes "kind") v.kind refl h.kind_text) (
              All-append _ _ _ (field (codes "group") v.group refl h.group_text)
                (field (codes "name") v.name refl h.name_text)))),
    )

-- From the URL of the topology of a view whose texts are Unicode text, a server reads the cluster,
-- the view's level under its name, the lens if there is one, and the namespace, the kind, the group
-- and the name, each under its own name exactly if the view has one that is not empty; it reads no
-- other field.
pub read_url-topology_url :
    (cluster : Text) (v : KubeView)
    → IsText cluster
    → IsTextView v
    → (fs : List (Text × Text)) × (read_url (topology_url cluster v)
        ≡ some ([] ∷ codes "k8s" ∷ codes "clusters" ∷ cluster ∷ codes "topology" ∷ [], fs))
      × IsFieldsOf v fs
unfolding topology_fields
read_url-topology_url cluster v h t = (
  topology_fields v,
  ap read_url (topology_url-url_of cluster v)
      ∙ read_url-url_of (cluster_segments cluster (codes "topology" ∷ []))
          (cluster_segments-IsText cluster (codes "topology" ∷ []) h
            (IsText-low (codes "topology") refl, tt))
          _ _ (topology_fields-IsField v t),
  topology_fields-IsFieldsOf v,
)
