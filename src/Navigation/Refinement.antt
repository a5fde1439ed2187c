-- ===== src/Navigation/Refinement.antt =====
-- The address bar as a store of the route: what each operation leaves once the hashchange is read.
use wiremap.Base.{
  ◌≡◌, refl, sym, ap, subst, ◌∙◌, inl, inr, Option, none, some, List, [], ◌∷◌, ◌++◌, append_assoc,
  Text, codes, Bool-cases, same_text, text_eq, eq_self,
}
use wiremap.KubeTypes.{KubeGraphNode, KubeRoot, KubeView}
use wiremap.Route.{
  no_namespace, KubeRoute, Outcome, or_else, parse_kube_hash, view_segments, drill_segments,
  to_kube_hash,
}
use wiremap.Route.Laws.{IsRoute}
use wiremap.Route.RoundTrip.{parse_kube_hash-to_kube_hash}
use wiremap.Navigation.{Nav, sync, opened_view, drill}
use wiremap.Navigation.Actions.{
  Action, act, kept_view, opened, after, IsAction, after-IsRoute, after-cluster,
}

drill_segments-append :
    (vs ws : List KubeView) → drill_segments (vs ++ ws) ≡ drill_segments vs ++ drill_segments ws
unfolding drill_segments
drill_segments-append [] ws = refl
drill_segments-append (v ∷ vs) ws = rw (drill_segments-append vs ws, append_assoc)

kept_namespace :
    (ns : Option Text) → or_else ns no_namespace ≡ or_else (some (or_else ns [])) no_namespace
unfolding same_text
kept_namespace none = refl
kept_namespace (some []) = refl
kept_namespace (some (c ∷ s)) = refl

opened_view-segments :
    (node : KubeGraphNode) → view_segments (opened_view node) ≡ view_segments (kept_view node)
opened_view-segments node = cc (kept_namespace node.namespace)

opened_view-hash :
    (cluster namespace : Text) (root : KubeRoot) (ds : List KubeView) (node : KubeGraphNode)
    → let hash = λ (v : KubeView).
      to_kube_hash (record {
        cluster = cluster;
        namespace = namespace;
        root = root;
        drills = ds ++ (v ∷ []);
      }) in
      hash (opened_view node) ≡ hash (kept_view node)
unfolding to_kube_hash
opened_view-hash cluster namespace root ds node = rw (
  drill_segments-append ds (opened_view node ∷ []),
  drill_segments-append ds (kept_view node ∷ []),
  kept_namespace node.namespace,
)

-- The address bar reads as the route, which a hash can carry.
pub record InStep (cluster : Text) (nav : Nav) : Type 0 where
  pub good : IsRoute nav.route
  pub own : nav.route.cluster ≡ cluster
  pub reads : parse_kube_hash nav.hash ≡ Outcome.returns (some nav.route)

pub sync-reads :
    (cluster hash : Text) (old r : KubeRoute)
    → r.cluster ≡ cluster
    → parse_kube_hash hash ≡ Outcome.returns (some r)
    → sync cluster (record { hash = hash; route = old })
      ≡ Outcome.returns (record { hash = hash; route = r })
unfolding sync
sync-reads cluster hash old r c h = rw (h, c, eq_self cluster)

-- What opening a node writes, as far as the hash can tell.
drill-hash :
    (node : KubeGraphNode) (nav : Nav)
    → parse_kube_hash nav.hash ≡ Outcome.returns (some nav.route)
    → IsRoute nav.route
    → parse_kube_hash (drill nav.route.cluster node nav).hash
      ≡ parse_kube_hash (to_kube_hash (opened node nav.route))
unfolding drill
drill-hash node nav h k = elim (Bool-cases node.drillable) [
  | inr shut ↦ rw shut (h ∙ sym (parse_kube_hash-to_kube_hash nav.route k))
  | inl drills ↦ elim (Bool-cases (same_text node.kind (codes "Namespace"))) [
    | inl e ↦ rw (drills, e)
    | inr e ↦ elim (Bool-cases (same_text node.kind (codes "Node"))) [
      | inl f ↦ rw (drills, e, f)
      | inr f ↦
          rw (drills, e, f) (ap parse_kube_hash (opened_view-hash _ _ _ nav.route.drills node))
    ]
  ]
]

act-hash :
    (a : Action) (nav : Nav)
    → parse_kube_hash nav.hash ≡ Outcome.returns (some nav.route)
    → IsRoute nav.route
    → parse_kube_hash (act nav.route.cluster a nav).hash
      ≡ parse_kube_hash (to_kube_hash (after a nav.route))
unfolding act
act-hash (Action.drill_node node) nav h k = drill-hash node nav h k
act-hash Action.go_back nav h k = refl
act-hash _ nav h k = refl

-- Every operation, once its hashchange is read, leaves exactly the route that it means, and the
-- address bar in step with it; reading it throws nothing. The names involved are ones that a hash
-- can carry: kinds without a dot, no namespace "*", no object namespace "-", Unicode text.
pub act-sync :
    (cluster : Text) (a : Action) (nav : Nav)
    → InStep cluster nav
    → IsAction a
    → let next : Nav = record { hash = (act cluster a nav).hash; route = after a nav.route } in
      (sync cluster (act cluster a nav) ≡ Outcome.returns next) × InStep cluster next
act-sync cluster a nav h k =
    let good = after-IsRoute a nav.route k h.good in
    let own = after-cluster a nav.route ∙ h.own in
    let reads : parse_kube_hash (act cluster a nav).hash
        ≡ Outcome.returns (some (after a nav.route)) =
      subst (λ c. parse_kube_hash (act c a nav).hash ≡ Outcome.returns (some (after a nav.route)))
        h.own (act-hash a nav h.reads h.good ∙ parse_kube_hash-to_kube_hash _ good) in
    (
      sync-reads cluster (act cluster a nav).hash (act cluster a nav).route (after a nav.route) own
          reads,
      record { good = good; own = own; reads = reads },
    )
