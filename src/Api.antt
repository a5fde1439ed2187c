-- ===== src/Api.antt =====
-- The requests to the server, client/src/services/api.ts. A request is a value; what the browser
-- makes of it, a response, is an argument of the function that takes the response apart.
pub mod Calls
pub mod Urls
pub mod Fields
pub mod Topology
pub mod Answers
mod Tests
use wiremap.Base.{
  ℕ, Bool, true, false, not, ◌&&◌, Option, none, some, List, [], ◌∷◌, ◌++◌, Text, codes, leb, ltb,
  join, ◌==◌, nat_eq, if◌then◌else◌,
}
use wiremap.Uri.{encode_uri_component}
use wiremap.Uri.Form.{to_query}
use wiremap.Format.{decimal}
use wiremap.Route.{is_truthy, or_else}
use wiremap.KubeTypes.{KubeKind, KubeLens, KubeLevel, KubeView}

unfoldable pub host_query : Text → Text
unfolding encode_uri_component
host_query host = if is_truthy host then codes "?host=" ++ encode_uri_component host else []

unfoldable pub host_append : Text → Text
unfolding encode_uri_component
host_append host = if is_truthy host then codes "&host=" ++ encode_uri_component host else []

-- The `message` of an error's body, beside the data of the body.
pub record Json (A : Type 0) : Type 0 where
  pub data_of : A
  pub message : Option Text

-- `json` is none where the body is no JSON.
pub record Response (A : Type 0) : Type 0 where
  pub status : ℕ
  pub status_text : Text
  pub json : Option (Json A)

-- A promise that resolves or rejects.
pub data Outcome (A : Type 0) : Type 0 where
  returned : A → Outcome A
  thrown : (message : Text) → Outcome A

unfoldable pub api_error : ℕ → Text → Text
unfolding decimal
api_error status text = codes "API error: " ++ (decimal status ++ (codes " " ++ text))

module _ {A : Type 0} where
  -- `response.ok`.
  abbrev pub is_ok : Response A → Bool
  is_ok r = leb 200 r.status && ltb r.status 300

  abbrev json_of : Text → Option (Json A) → Outcome A
  json_of invalid none = Outcome.thrown invalid
  json_of invalid (some j) = Outcome.returned j.data_of

  -- `invalid` is the message of the parser of JSON.
  unfoldable pub fetch_json : Text → Response A → Outcome A
  fetch_json invalid r =
      if not (is_ok r)
      then Outcome.thrown (api_error r.status r.status_text)
      else json_of invalid r.json

  abbrev pub sent_data : Response A → Option (Json A)
  sent_data r = if r.status == 204 then none else r.json

  abbrev pub message_of : Option (Json A) → Option Text
  message_of none = none
  message_of (some j) = j.message

  abbrev pub value_of : Option (Json A) → Option A
  value_of none = none
  value_of (some j) = some j.data_of

  unfoldable pub send_json : Response A → Outcome (Option A)
  send_json r =
      if not (is_ok r)
      then Outcome.thrown (or_else (message_of (sent_data r)) (api_error r.status r.status_text))
      else Outcome.returned (value_of (sent_data r))

-- `api`, behind `BASE_URL`.
unfoldable pub containers_url : Text → Text
unfolding host_query
containers_url host = codes "/containers" ++ host_query host

unfoldable pub container_url : Text → Text → Text
unfolding host_query
container_url host id = codes "/containers/" ++ (id ++ host_query host)

unfoldable pub networks_url : Text → Text
unfolding host_query
networks_url host = codes "/networks" ++ host_query host

unfoldable pub network_url : Text → Text → Text
unfolding host_query
network_url host id = codes "/networks/" ++ (id ++ host_query host)

unfoldable pub dir_url : Text → Text → Text → Text
unfolding encode_uri_component host_append
dir_url host id path =
    codes "/containers/"
    ++ (id ++ (codes "/fs?path=" ++ (encode_uri_component path ++ host_append host)))

unfoldable pub read_file_url : Text → Text → Text → Text
unfolding encode_uri_component host_append
read_file_url host id path =
    codes "/containers/"
    ++ (id ++ (codes "/fs/read?path=" ++ (encode_uri_component path ++ host_append host)))

unfoldable pub k8s_path : Text → Text
unfolding encode_uri_component
k8s_path cluster = codes "/k8s/clusters/" ++ encode_uri_component cluster

abbrev pub level_word : KubeLevel → Text
level_word KubeLevel.cluster = codes "cluster"
level_word KubeLevel.namespace = codes "namespace"
level_word KubeLevel.object = codes "object"
level_word KubeLevel.node = codes "node"
level_word KubeLevel.kind = codes "kind"

abbrev pub lens_word : KubeLens → Text
lens_word KubeLens.namespaces = codes "namespaces"
lens_word KubeLens.nodes = codes "nodes"
lens_word KubeLens.storage = codes "storage"
lens_word KubeLens.access = codes "access"

-- `if (value) params.set(key, value)`.
abbrev pub optional : Text → Option Text → List (Text × Text)
optional key none = []
optional key (some value) = if is_truthy value then (key, value) ∷ [] else []

abbrev pub lens_field : Option KubeLens → List (Text × Text)
lens_field none = []
lens_field (some l) = (codes "lens", lens_word l) ∷ []

unfoldable pub topology_fields : KubeView → List (Text × Text)
topology_fields view =
    (codes "level", level_word view.level)
    ∷ (lens_field view.lens
        ++ (optional (codes "namespace") view.namespace
            ++ (optional (codes "kind") view.kind
                ++ (optional (codes "group") view.group ++ optional (codes "name") view.name))))

-- `kubeApi`.
unfoldable pub topology_url : Text → KubeView → Text
unfolding k8s_path topology_fields to_query
topology_url cluster view =
    k8s_path cluster ++ (codes "/topology?" ++ to_query (topology_fields view))

unfoldable pub resource_url : Text → Text → Text → Text → Option Text → Text
unfolding k8s_path to_query encode_uri_component
resource_url cluster kind group name namespace =
    k8s_path cluster
    ++ (codes "/resources/"
        ++ (kind
            ++ (codes "/"
                ++ (encode_uri_component name
                    ++ (codes "?"
                        ++ to_query (
                            (codes "group", group)
                            ∷ (codes "namespace", or_else namespace [])
                            ∷ []))))))

unfoldable pub kinds_url : Text → Text
unfolding k8s_path
kinds_url cluster = k8s_path cluster ++ codes "/kinds"

unfoldable pub objects_url : Text → KubeKind → Text → Text → Text
unfolding k8s_path to_query
objects_url cluster kind namespace token =
    k8s_path cluster
    ++ (codes "/objects?"
        ++ to_query (
            (codes "group", kind.group)
            ∷ (codes "version", kind.version)
            ∷ (codes "resource", kind.resource)
            ∷ (codes "namespace", namespace)
            ∷ (codes "continue", token)
            ∷ []))

unfoldable pub counts_url : Text → Text → List Text → Text
unfolding k8s_path to_query join
counts_url cluster namespace kinds =
    k8s_path cluster
    ++ (codes "/counts?"
        ++ to_query ((codes "namespace", namespace) ∷ (codes "kinds", join b',' kinds) ∷ []))

unfoldable pub pod_url : Text → Text → Text → Text
unfolding k8s_path encode_uri_component
pod_url cluster namespace name =
    k8s_path cluster
    ++ (codes "/namespaces/"
        ++ (encode_uri_component namespace ++ (codes "/pods/" ++ encode_uri_component name)))
