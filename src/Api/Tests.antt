-- ===== src/Api/Tests.antt =====
-- Names with slashes, blanks and question marks, and the theorems at them.
use wiremap.Base.{
  ◌≡◌, refl, ◌⊎◌, true, false, Option, none, some, List, [], ◌∷◌, Text, codes, same_text,
}
use wiremap.KubeTypes.{KubeLens, KubeLevel, KubeView}
use wiremap.Uri.{encode_uri_component}
use wiremap.Uri.Query.{read_url}
use wiremap.Route.{is_truthy}
use wiremap.Api.{Outcome, Response, counts_url, is_ok, read_file_url, send_json, topology_url}
use wiremap.Api.Calls.{KubeTarget}
use wiremap.Api.Urls.{IsText-low}
use wiremap.Api.Fields.{IsFieldsOf}
use wiremap.Api.Topology.{IsTextView, read_url-topology_url}
use wiremap.Api.Answers.{send_json-cases}

counts_url_test :
    counts_url (codes "a b") [] (codes "apps/Deployment" ∷ codes "/Pod" ∷ [])
    ≡ codes "/k8s/clusters/a%20b/counts?namespace=&kinds=apps%2FDeployment%2C%2FPod"
unfolding counts_url
counts_url_test = refl

read_file_url_test :
    read_file_url (codes "h") (codes "abc") (codes "/etc/a b")
    ≡ codes "/containers/abc/fs/read?path=%2Fetc%2Fa%20b&host=h"
unfolding read_file_url same_text
read_file_url_test = refl

abbrev view : KubeView
view = record {
  level = KubeLevel.object;
  lens = some KubeLens.nodes;
  namespace = some (codes "a&b=c");
  kind = none;
  group = some [];
  name = some (codes "x y+?");
}

view-IsTextView : IsTextView view
unfolding same_text
view-IsTextView = record {
  namespace_text = IsText-low (codes "a&b=c") refl;
  kind_text = tt;
  group_text = tt;
  name_text = IsText-low (codes "x y+?") refl;
}

read_url-topology_url_example :
    (fs : List (Text × Text)) × (read_url (topology_url (codes "p/q") view)
      ≡ some ([] ∷ codes "k8s" ∷ codes "clusters" ∷ codes "p/q" ∷ codes "topology" ∷ [], fs))
    × IsFieldsOf view fs
read_url-topology_url_example =
    read_url-topology_url (codes "p/q") view (IsText-low (codes "p/q") refl) view-IsTextView

abbrev target : KubeTarget
target = record {
  cluster = codes "prod";
  kind = codes "Deployment";
  group = codes "apps";
  name = codes "web/1";
  namespace = some (codes "shop");
}

deployment_word : encode_uri_component (codes "Deployment") ≡ codes "Deployment"
unfolding encode_uri_component same_text
deployment_word = refl

scale_word : encode_uri_component (codes "scale") ≡ codes "scale"
unfolding encode_uri_component same_text
scale_word = refl

abbrev forbidden : Response Unit
forbidden = record { status = 403; status_text = codes "Forbidden"; json = none }

send_json-cases_example :
    ((is_ok forbidden ≡ true) × ((v : Option Unit) × (send_json forbidden ≡ Outcome.returned v)))
    ⊎ ((is_ok forbidden ≡ false)
        × ((m : Text) × (send_json forbidden ≡ Outcome.thrown m) × (is_truthy m ≡ true)))
send_json-cases_example = send_json-cases forbidden
