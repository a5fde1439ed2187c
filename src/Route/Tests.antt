-- ===== src/Route/Tests.antt =====
-- The routes of kubeRoute.test.ts, and the theorems at concrete routes.
use wiremap.Base.{◌≡◌, refl, some, none, [], ◌∷◌, Text, codes, same_text, split, join, arith}
use wiremap.Uri.{decode_uri_component, encode_uri_component}
use wiremap.Uri.Laws.{decode-encode}
use wiremap.KubeTypes.{KubeRoot}
use wiremap.Route.{
  KubeRoute, Outcome, node_view, object_view, parse_kube_hash, to_kube_hash, default_route,
}
use wiremap.Route.Laws.{IsDrill, IsRoute}
use wiremap.Route.RoundTrip.{parse_kube_hash-to_kube_hash}
use wiremap.Route.Reading.{parse_kube_hash-IsRoute, parse_kube_hash_settles}

abbrev deep_hash : Text
deep_hash = codes "#/k8s/prod/shop/Deployment.apps/Deployment.apps/shop/web/Node/-/worker"

abbrev deep_route : KubeRoute
deep_route = record {
  cluster = codes "prod";
  namespace = codes "shop";
  root = KubeRoot.kind (codes "apps") (codes "Deployment");
  drills =
      object_view (codes "shop") (codes "Deployment") (codes "apps") (codes "web")
      ∷ node_view (codes "worker")
      ∷ [];
}

parse_tests :
    (parse_kube_hash [] ≡ Outcome.returns none)
    × (parse_kube_hash (codes "#/docker/local") ≡ Outcome.returns none)
    × (parse_kube_hash (codes "#/k8s/") ≡ Outcome.returns none)
    × (parse_kube_hash (codes "#/k8s/prod/*")
        ≡ Outcome.returns (some (default_route (codes "prod"))))
    × (parse_kube_hash (codes "#/k8s/%zz") ≡ Outcome.uri_error)
    × (parse_kube_hash deep_hash ≡ Outcome.returns (some deep_route))
    × (parse_kube_hash (codes "#/k8s/prod/shop/overview/Pod/shop")
        ≡ Outcome.returns
            (some (record (default_route (codes "prod")) { namespace = codes "shop" })))
unfolding parse_kube_hash split join same_text
parse_tests = (refl, refl, refl, refl, refl, refl, refl)

write_tests :
    (to_kube_hash deep_route ≡ deep_hash)
    × (encode_uri_component (codes "a é/€") ≡ codes "a%20%C3%A9%2F%E2%82%AC")
unfolding to_kube_hash split join same_text
write_tests = (refl, refl)

decode-encode_example :
    decode_uri_component (encode_uri_component (codes "web#1 €")) ≡ some (codes "web#1 €")
decode-encode_example = decode-encode (codes "web#1 €") (ground arith)

deep_route-IsRoute : IsRoute deep_route
deep_route-IsRoute = record {
  cluster_text = ground arith;
  has_cluster = λ e. cc;
  namespace_text = ground arith;
  namespace_name = λ e. cc;
  root_ok = (ground arith, ground arith, λ e. cc);
  drills_ok = (
    IsDrill.object _ _ _ _ (ground arith) (λ e. cc) (ground arith) (ground arith) (λ _ e. cc)
        (ground arith) refl,
    (IsDrill.node _ (ground arith) refl, tt),
  );
}

parse_kube_hash-to_kube_hash_example :
    parse_kube_hash (to_kube_hash deep_route) ≡ Outcome.returns (some deep_route)
parse_kube_hash-to_kube_hash_example = parse_kube_hash-to_kube_hash deep_route deep_route-IsRoute

parse_kube_hash-IsRoute_example : IsRoute deep_route
parse_kube_hash-IsRoute_example =
    parse_kube_hash-IsRoute deep_hash deep_route (ground arith) (λ e. cc) parse_tests.5

parse_kube_hash_settles_example :
    parse_kube_hash (to_kube_hash deep_route) ≡ Outcome.returns (some deep_route)
parse_kube_hash_settles_example =
    parse_kube_hash_settles deep_hash deep_route (ground arith) (λ e. cc) parse_tests.5
