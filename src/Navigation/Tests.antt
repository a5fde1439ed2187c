-- ===== src/Navigation/Tests.antt =====
-- The sessions of useKubeNavigation.test.ts, and the theorems at a concrete state.
use wiremap.Base.{
  ◌≡◌, refl, true, some, none, suc, take, List, [], ◌∷◌, Text, codes, same_text, split, join, arith,
}
use wiremap.KubeTypes.{
  KubeGraphNode, KubeLens, KubeLevel, KubeNodeStatus, KubeRoot, RootLens, bare_view,
}
use wiremap.Route.{KubeRoute, Outcome, default_route, node_view, parse_kube_hash, to_kube_hash}
use wiremap.Route.Laws.{IsDrill}
use wiremap.Navigation.{Nav, view, crumbs, leave, mount, sync, go_to}
use wiremap.Navigation.Actions.{Action, act, after, IsOpenable}
use wiremap.Navigation.Refinement.{InStep, act-sync}
use wiremap.Navigation.Mounting.{run, after_all, mount-run, mount-InStep, first_route}
use wiremap.Navigation.Crumbs.{back-drill, crumbs-go_to, shown_view}

abbrev prod : Text
prod = codes "prod"

abbrev web : KubeGraphNode
web = record {
  id = codes "x";
  kind = codes "Deployment";
  api_group = some (codes "apps");
  name = codes "web";
  namespace = some (codes "shop");
  status = KubeNodeStatus.healthy;
  summary = [];
  drillable = true;
  group = none;
  weight = 1;
  details = none;
}

abbrev listed : KubeRoute
listed = record {
  cluster = prod;
  namespace = codes "shop";
  root = KubeRoot.kind (codes "apps") (codes "Deployment");
  drills = node_view (codes "worker") ∷ [];
}

abbrev listed_nav : Nav
listed_nav = record { hash = codes "#/k8s/prod/shop/Deployment.apps/Node/-/worker"; route = listed }

labels :
    (crumbs listed ≡ codes "Deployments" ∷ codes "Node worker" ∷ [])
    × (crumbs (default_route prod) ≡ codes "Cluster" ∷ [])
    × (view (default_route prod)
        ≡ some (record (bare_view KubeLevel.cluster) { lens = some KubeLens.namespaces }))
    × (mount prod (record { hash = codes "#/k8s/staging/shop/Pod"; route = default_route prod })
        ≡ Outcome.returns
            (record { hash = codes "#/k8s/prod/*/overview"; route = default_route prod }))
unfolding crumbs view mount parse_kube_hash to_kube_hash split join same_text
labels = (refl, refl, refl, refl)

listed-InStep : InStep prod listed_nav
unfolding parse_kube_hash split join same_text
listed-InStep = record {
  good = record {
    cluster_text = ground arith;
    has_cluster = λ e. cc;
    namespace_text = ground arith;
    namespace_name = λ e. cc;
    root_ok = (ground arith, ground arith, λ e. cc);
    drills_ok = (IsDrill.node _ (ground arith) refl, tt);
  };
  own = refl;
  reads = refl;
}

web-IsOpenable : IsOpenable web
unfolding same_text
web-IsOpenable = record {
  name_text = ground arith;
  kind_name = ground arith;
  group_text = ground arith;
  namespace_text = ground arith;
  namespace_name = λ e. cc;
  scope_name = λ e. cc;
}

act-sync_example :
    let a = Action.drill_node web in
    let next : Nav = record { hash = (act prod a listed_nav).hash; route = after a listed } in
    (sync prod (act prod a listed_nav) ≡ Outcome.returns next) × InStep prod next
act-sync_example = act-sync prod (Action.drill_node web) listed_nav listed-InStep web-IsOpenable

abbrev steps : List Action
steps =
    Action.drill_node web
    ∷ Action.go_crumb 1
    ∷ Action.pick_root (KubeRoot.lens RootLens.nodes) none
    ∷ Action.pick_namespace []
    ∷ []

mount-InStep_example :
    (next : Nav) × (mount prod listed_nav ≡ Outcome.returns next)
    × (next.route ≡ first_route prod (some listed))
    × InStep prod next
unfolding same_text
mount-InStep_example =
    mount-InStep prod listed_nav (ground arith) (λ e. cc) (some listed) (ground arith)
      listed-InStep.reads (λ e. cc)

mount-run_example :
    (next : Nav) × (end : Nav) × (mount prod listed_nav ≡ Outcome.returns next)
    × (run prod steps next ≡ Outcome.returns end)
    × (end.route ≡ after_all steps (first_route prod (some listed)))
    × ((route : KubeRoute)
        → mount prod (record { hash = end.hash; route = route }) ≡ Outcome.returns end)
    × (mount (codes "dev") (leave end)
        ≡ Outcome.returns (record {
          hash = to_kube_hash (default_route (codes "dev"));
          route = default_route (codes "dev");
        }))
unfolding same_text
mount-run_example =
    mount-run prod listed_nav (some listed) steps (codes "dev") (ground arith) (λ e. cc)
      (ground arith) listed-InStep.reads (λ e. cc) (web-IsOpenable, (tt, (tt, ((tt, λ e. cc), tt))))
      (ground arith) (λ e. cc)

back-drill_example :
    (view (after (Action.drill_node web) listed) ≡ some (shown_view web))
    × ((end : Nav) × (run prod (Action.drill_node web ∷ Action.go_back ∷ []) listed_nav
          ≡ Outcome.returns end)
        × (end.route ≡ listed))
back-drill_example = back-drill prod web listed_nav listed-InStep web-IsOpenable refl (λ e. cc)

crumbs-go_to_example :
    (end : Nav) × (sync prod (go_to prod 0 listed_nav) ≡ Outcome.returns end)
    × (crumbs end.route ≡ take (suc 0) (crumbs listed))
crumbs-go_to_example = crumbs-go_to prod 0 listed_nav listed-InStep
