-- ===== src/Navigation/Mounting.antt =====
-- Mounting the hook, and sessions: any sequence of operations, each followed by its hashchange.
use wiremap.Base.{
  ap, ◌∙◌, ◌≡◌, ◌≢◌, refl, inl, inr, Option, none, some, List, [], ◌∷◌, Text, All, Bool-cases,
  same_text, same_text_iff, split, if◌then◌else◌,
}
use wiremap.Route.{KubeRoute, Outcome, default_route, parse_kube_hash, to_kube_hash}
use wiremap.Route.Laws.{IsText, IsRoute}
use wiremap.Route.RoundTrip.{parse_kube_hash-to_kube_hash}
use wiremap.Route.Reading.{IsUnambiguous, parse_kube_hash-IsRoute}
use wiremap.Navigation.{Nav, leave, sync, mount}
use wiremap.Navigation.Actions.{Action, act, after, IsAction}
use wiremap.Navigation.Refinement.{InStep, sync-reads, act-sync}

-- Performs the actions, reading the hash after each.
pub run : Text → List Action → Nav → Outcome Nav
run cluster [] nav = Outcome.returns nav
run cluster (a ∷ rest) nav = elim (sync cluster (act cluster a nav)) [
  | Outcome.uri_error ↦ Outcome.uri_error
  | Outcome.returns next ↦ run cluster rest next
]

abbrev pub after_all : List Action → KubeRoute → KubeRoute
after_all [] r = r
after_all (a ∷ rest) r = after_all rest (after a r)

-- From a state in step, operations with proper arguments throw no exception and end at the route that
-- they mean, in step with the hash.
pub run-after_all :
    (cluster : Text) (actions : List Action) (nav : Nav)
    → InStep cluster nav
    → All IsAction actions
    → (end : Nav) × (run cluster actions nav ≡ Outcome.returns end)
      × (end.route ≡ after_all actions nav.route)
      × InStep cluster end
unfolding run
run-after_all cluster [] nav h k = (nav, refl, refl, h)
run-after_all cluster (a ∷ actions) nav h (k, ks) =
    let (synced, step) = act-sync cluster a nav h k in
    let (end, e, r, s) = run-after_all cluster actions _ step ks in (end, rw (synced, run) e, r, s)

default-IsRoute : (cluster : Text) → IsText cluster → cluster ≢ [] → IsRoute (default_route cluster)
default-IsRoute cluster h n = record {
  cluster_text = h;
  has_cluster = n;
  namespace_text = tt;
  namespace_name = λ e. cc;
  root_ok = tt;
  drills_ok = tt;
}

-- Where the hook begins: at the route of the hash if it is one of this cluster, else at the
-- cluster's overview.
abbrev pub first_route : Text → Option KubeRoute → KubeRoute
first_route cluster none = default_route cluster
first_route cluster (some r) = if same_text r.cluster cluster then r else default_route cluster

-- A page that is loaded in step with the hash stays there.
remount :
    (cluster : Text) (end : Nav)
    → InStep cluster end
    → (route : KubeRoute)
    → mount cluster (record { hash = end.hash; route = route }) ≡ Outcome.returns end
unfolding mount
remount cluster end step route =
    rw (step.reads, (same_text_iff end.route.cluster cluster).1 step.own)
      (sync-reads cluster end.hash route end.route step.own step.reads)

module _ (cluster : Text) (nav : Nav) (text : IsText cluster) (some_name : cluster ≢ []) where
  -- The state after the effect has replaced the hash by the overview's.
  abbrev replaced : Nav
  replaced = record { hash = to_kube_hash (default_route cluster); route = default_route cluster }

  replaced-InStep : InStep cluster replaced
  replaced-InStep = record {
    good = default-IsRoute cluster text some_name;
    own = refl;
    reads = parse_kube_hash-to_kube_hash _ (default-IsRoute cluster text some_name);
  }

  sync-replaced :
      sync cluster (record nav { hash = to_kube_hash (default_route cluster) })
      ≡ Outcome.returns replaced
  sync-replaced = sync-reads cluster _ nav.route _ refl replaced-InStep.reads

  -- For a cluster named by Unicode text that is not empty, and on a hash of Unicode text that can be
  -- decoded, mounting ends in step with the address bar, at the route that the hash names for this
  -- cluster, or else at its overview. The root where it ends must not be a kind without a group that
  -- is named like another root.
  pub mount-InStep :
      (parsed : Option KubeRoute)
      → IsText nav.hash
      → parse_kube_hash nav.hash ≡ Outcome.returns parsed
      → IsUnambiguous (first_route cluster parsed).root
      → (next : Nav) × (mount cluster nav ≡ Outcome.returns next)
        × (next.route ≡ first_route cluster parsed)
        × InStep cluster next
  unfolding mount
  mount-InStep none t e u = (replaced, rw e sync-replaced, refl, replaced-InStep)
  mount-InStep (some r) t e u = elim (Bool-cases (same_text r.cluster cluster)) [
    | inr other ↦ (replaced, rw (e, other) sync-replaced, rw other, replaced-InStep)
    | inl own ↦
        let c = (same_text_iff r.cluster cluster).0 own in
        (
          record { hash = nav.hash; route = r },
          rw (e, own) (sync-reads cluster nav.hash nav.route r c e),
          rw own,
          record {
            good = parse_kube_hash-IsRoute nav.hash r t (rw own at u) e;
            own = c;
            reads = e;
          },
        )
  ]

no_hash : parse_kube_hash [] ≡ Outcome.returns none
unfolding parse_kube_hash split
no_hash = refl

-- Where the hook goes from one cluster to another, its clean-up has taken the hash off, so that the
-- other cluster begins at its overview.
leave-mount :
    (other : Text) (end : Nav)
    → IsText other
    → other ≢ []
    → mount other (leave end)
      ≡ Outcome.returns
          (record { hash = to_kube_hash (default_route other); route = default_route other })
unfolding mount leave
leave-mount other end text some_name = rw no_hash (sync-replaced other (leave end) text some_name)

-- Let the hook be mounted for a cluster, named by Unicode text that is not empty, on a hash of
-- Unicode text that can be decoded, where the root of the first route is not a kind without a group
-- that is named like another root, and let operations with proper arguments follow, each with its
-- hashchange. Then nothing throws, and the route is the one that the operations mean. A page that is
-- loaded at the last hash, whatever route its state begins with, comes back to the same hash and the
-- same route; and a hook that leaves for another cluster, also named by Unicode text that is not
-- empty, begins at that cluster's overview.
pub mount-run :
    (cluster : Text) (nav : Nav) (parsed : Option KubeRoute) (actions : List Action) (other : Text)
    → IsText cluster
    → cluster ≢ []
    → IsText nav.hash
    → parse_kube_hash nav.hash ≡ Outcome.returns parsed
    → IsUnambiguous (first_route cluster parsed).root
    → All IsAction actions
    → IsText other
    → other ≢ []
    → (next : Nav) × (end : Nav) × (mount cluster nav ≡ Outcome.returns next)
      × (run cluster actions next ≡ Outcome.returns end)
      × (end.route ≡ after_all actions (first_route cluster parsed))
      × ((route : KubeRoute)
          → mount cluster (record { hash = end.hash; route = route }) ≡ Outcome.returns end)
      × (mount other (leave end)
          ≡ Outcome.returns
              (record { hash = to_kube_hash (default_route other); route = default_route other }))
mount-run cluster nav parsed actions other text some_name t e u k o n =
    let (next, m, r, step) = mount-InStep cluster nav text some_name parsed t e u in
    let (end, d, q, last) = run-after_all cluster actions next step k in
    (
      next,
      end,
      m,
      d,
      q ∙ ap (after_all actions) r,
      λ route. remount cluster end last route,
      leave-mount other end o n,
    )
