-- ===== src/Api/Urls.antt =====
-- A server that takes the URLs apart finds what the client asked for.
use wiremap.Base.{
  Bool, true, text_eq, ◌&&◌, ltb, inl, ◌≡◌, refl, ap, ◌∙◌, Option, some, List, [], ◌∷◌,
  append_assoc, Text, All, codes, join, arith,
}
use wiremap.Uri.{encode_uri_component}
use wiremap.Uri.Query.{
  IsField, IsText, path_of, read_url, read_url-path_of, read_url-url_of, url_of,
}
use wiremap.Route.{or_else}
use wiremap.Api.{k8s_path, pod_url}
use wiremap.Api.Calls.{KubeTarget, resource_path}

-- A text that encoding leaves as it is: the name of a kind.
abbrev pub IsEncoded : Text → Type 0
IsEncoded s = IsText s × (encode_uri_component s ≡ s)

abbrev pub is_low : Text → Bool
is_low [] = true
is_low (c ∷ s) = ltb c 0xd800 && is_low s

pub IsText-low : (s : Text) → is_low s ≡ true → IsText s
IsText-low [] h = tt
IsText-low (c ∷ s) h = (inl (ground arith), IsText-low s (ground arith))

IsText-or_else :
    (o : Option Text) → IsText (or_else o []) → IsField (codes "namespace", or_else o [])
IsText-or_else o h = (IsText-low (codes "namespace") refl, h)

-- A URL below a cluster.
abbrev pub cluster_segments : Text → List Text → List Text
cluster_segments cluster rest = codes "k8s" ∷ codes "clusters" ∷ cluster ∷ rest

pub cluster_segments-IsText :
    (cluster : Text) (rest : List Text)
    → IsText cluster
    → All IsText rest
    → All IsText (cluster_segments cluster rest)
cluster_segments-IsText cluster rest h k =
    (IsText-low (codes "k8s") refl, (IsText-low (codes "clusters") refl, (h, k)))

resource_path-url_of :
    (t : KubeTarget) (action : Text)
    → encode_uri_component t.kind ≡ t.kind
    → encode_uri_component action ≡ action
    → resource_path t (b'/' ∷ action)
      ≡ url_of
          (cluster_segments t.cluster (codes "resources" ∷ t.kind ∷ t.name ∷ action ∷ []))
          ((codes "group", t.group) ∷ (codes "namespace", or_else t.namespace []) ∷ [])
unfolding resource_path k8s_path join
resource_path-url_of t action e f = rw (e, f) (simp append_assoc)

-- From the path of an action on an object a server reads the cluster, the kind, the name and the
-- action, and the group and the namespace from the query, whatever characters the names hold. The
-- kind, which the source writes as it is, and the action must need no encoding.
pub read_url-resource_path :
    (t : KubeTarget) (action : Text)
    → IsText t.cluster
    → IsEncoded t.kind
    → IsText t.name
    → IsEncoded action
    → IsText t.group
    → IsText (or_else t.namespace [])
    → read_url (resource_path t (b'/' ∷ action))
      ≡ some (
        []
            ∷ codes "k8s"
            ∷ codes "clusters"
            ∷ t.cluster
            ∷ codes "resources"
            ∷ t.kind
            ∷ t.name
            ∷ action
            ∷ [],
        (codes "group", t.group) ∷ (codes "namespace", or_else t.namespace []) ∷ [],
      )
read_url-resource_path t action c k n a g ns =
    ap read_url (resource_path-url_of t action k.1 a.1)
    ∙ read_url-url_of
        (cluster_segments t.cluster (codes "resources" ∷ t.kind ∷ t.name ∷ action ∷ []))
        (cluster_segments-IsText t.cluster (codes "resources" ∷ t.kind ∷ t.name ∷ action ∷ []) c
          (IsText-low (codes "resources") refl, (k.0, (n, (a.0, tt)))))
        (codes "group", t.group) _
        ((IsText-low (codes "group") refl, g), (IsText-or_else t.namespace ns, tt))

pod_url-path_of :
    (cluster namespace name : Text)
    → pod_url cluster namespace name
      ≡ path_of
          (cluster_segments cluster (codes "namespaces" ∷ namespace ∷ codes "pods" ∷ name ∷ []))
unfolding pod_url k8s_path join
pod_url-path_of cluster namespace name = refl

-- From the URL of a pod a server reads the cluster, the namespace and the name.
pub read_url-pod_url :
    (cluster namespace name : Text)
    → IsText cluster
    → IsText namespace
    → IsText name
    → read_url (pod_url cluster namespace name)
      ≡ some (
        []
            ∷ codes "k8s"
            ∷ codes "clusters"
            ∷ cluster
            ∷ codes "namespaces"
            ∷ namespace
            ∷ codes "pods"
            ∷ name
            ∷ [],
        [],
      )
read_url-pod_url cluster namespace name c ns n =
    ap read_url (pod_url-path_of cluster namespace name)
    ∙ read_url-path_of
        (cluster_segments cluster (codes "namespaces" ∷ namespace ∷ codes "pods" ∷ name ∷ []))
        (cluster_segments-IsText cluster (codes "namespaces" ∷ namespace ∷ codes "pods" ∷ name ∷ [])
          c (IsText-low (codes "namespaces") refl, (ns, (IsText-low (codes "pods") refl, (n, tt)))))
