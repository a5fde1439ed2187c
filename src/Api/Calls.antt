-- ===== src/Api/Calls.antt =====
-- The actions on a cluster, `kubeActions` of client/src/services/api.ts.
use wiremap.Base.{ℕ, Bool, Option, none, some, [], ◌∷◌, ◌++◌, Text, codes}
use wiremap.Uri.{encode_uri_component}
use wiremap.Uri.Form.{to_query}
use wiremap.Route.{or_else}
use wiremap.Api.{k8s_path}

pub record KubeTarget : Type 0 where
  pub cluster : Text
  pub kind : Text
  pub group : Text
  pub name : Text
  pub namespace : Option Text

unfoldable pub resource_path : KubeTarget → Text → Text
unfolding k8s_path to_query encode_uri_component
resource_path t action =
    k8s_path t.cluster
    ++ (codes "/resources/"
        ++ (t.kind
            ++ (codes "/"
                ++ (encode_uri_component t.name
                    ++ (action
                        ++ (codes "?"
                            ++ to_query (
                                (codes "group", t.group)
                                ∷ (codes "namespace", or_else t.namespace [])
                                ∷ [])))))))

unfoldable pub node_path : Text → Text → Text → Text
unfolding k8s_path encode_uri_component
node_path cluster node action =
    k8s_path cluster ++ (codes "/nodes/" ++ (encode_uri_component node ++ (codes "/" ++ action)))

pub data Method : Type 0 where
  put delete post : Method

-- What `JSON.stringify` writes: an object of one field.
pub data Body : Type 0 where
  yaml : Text → Body
  replicas : ℕ → Body
  value : Bool → Body

pub record Call : Type 0 where
  pub method : Method
  pub url : Text
  pub body : Option Body

unfoldable pub update : KubeTarget → Text → Call
unfolding resource_path
update t text = record {
  method = Method.put;
  url = resource_path t [];
  body = some (Body.yaml text);
}

unfoldable pub remove : KubeTarget → Call
unfolding resource_path
remove t = record { method = Method.delete; url = resource_path t []; body = none }

unfoldable pub scale : KubeTarget → ℕ → Call
unfolding resource_path
scale t n = record {
  method = Method.post;
  url = resource_path t (codes "/scale");
  body = some (Body.replicas n);
}

unfoldable pub restart : KubeTarget → Call
unfolding resource_path
restart t = record { method = Method.post; url = resource_path t (codes "/restart"); body = none }

unfoldable pub trigger : KubeTarget → Call
unfolding resource_path
trigger t = record { method = Method.post; url = resource_path t (codes "/trigger"); body = none }

unfoldable pub suspend : KubeTarget → Bool → Call
unfolding resource_path
suspend t b = record {
  method = Method.post;
  url = resource_path t (codes "/suspend");
  body = some (Body.value b);
}

unfoldable pub cordon : Text → Text → Bool → Call
unfolding node_path
cordon cluster node b = record {
  method = Method.post;
  url = node_path cluster node (codes "cordon");
  body = some (Body.value b);
}

unfoldable pub drain : Text → Text → Call
unfolding node_path
drain cluster node = record {
  method = Method.post;
  url = node_path cluster node (codes "drain");
  body = none;
}
