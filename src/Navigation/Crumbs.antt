-- ===== src/Navigation/Crumbs.antt =====
-- The trail of crumbs, and going back.
use wiremap.Base.{
  drop_last-append, drop_last, ℕ, zero, suc, ◌≡◌, ◌≢◌, refl, ap, ◌∙◌, true, some, List, [], ◌∷◌,
  ◌++◌, map, take, length-append, Text, codes, arith, same_text, same_text_iff, if◌then◌else◌,
}
use wiremap.KubeTypes.{KubeGraphNode, KubeView}
use wiremap.Route.{KubeRoute, Outcome, node_view}
use wiremap.Navigation.{Nav, sync, go_to, crumbs, view, root_label, drill_label, last?}
use wiremap.Navigation.Actions.{Action, act, after, opened, kept_view, IsOpenable}
use wiremap.Navigation.Refinement.{InStep, act-sync}
use wiremap.Navigation.Mounting.{run, run-after_all}

last?-append : (xs : List KubeView) (x : KubeView) → last? (xs ++ (x ∷ [])) ≡ some x
last?-append [] x = refl
last?-append (y ∷ []) x = refl
last?-append (y ∷ z ∷ xs) x = last?-append (z ∷ xs) x

-- The view that opening a node of the graph shows, unless it is a namespace.
abbrev pub shown_view : KubeGraphNode → KubeView
shown_view node = if same_text node.kind (codes "Node") then node_view node.name else kept_view node

opened-eq-push :
    (node : KubeGraphNode) (r : KubeRoute)
    → node.drillable ≡ true
    → node.kind ≢ codes "Namespace"
    → opened node r ≡ record r { drills = r.drills ++ (shown_view node ∷ []) }
opened-eq-push node r d n = ground (arith, same_text_iff node.kind (codes "Namespace"))

view_pushed :
    (r : KubeRoute) (v : KubeView) → view (record r { drills = r.drills ++ (v ∷ []) }) ≡ some v
unfolding view
view_pushed r v = ground (arith, length-append r.drills (v ∷ []), last?-append r.drills v)

abbrev popped : KubeRoute → KubeRoute
popped r = record r { drills = drop_last r.drills }

-- Opening a node and going back, each followed by its hashchange, ends at the route where it
-- began, with nothing thrown; and in between the opened object is what is drawn. The node is
-- drillable, is not a namespace, and has names that a hash can carry.
pub back-drill :
    (cluster : Text) (node : KubeGraphNode) (nav : Nav)
    → InStep cluster nav
    → IsOpenable node
    → node.drillable ≡ true
    → node.kind ≢ codes "Namespace"
    → (view (opened node nav.route) ≡ some (shown_view node))
      × ((end : Nav) × (run cluster (Action.drill_node node ∷ Action.go_back ∷ []) nav
            ≡ Outcome.returns end)
          × (end.route ≡ nav.route))
back-drill cluster node nav h o d n =
    let e = opened-eq-push node nav.route d n in
    let (end, ran, route, _) =
      run-after_all cluster (Action.drill_node node ∷ Action.go_back ∷ []) nav h (o, (tt, tt)) in
    (
      ap view e ∙ view_pushed nav.route (shown_view node),
      (
        end,
        ran,
        route ∙ ap popped e ∙ ap (λ ds. record nav.route { drills = ds }) (drop_last-append _ _),
      ),
    )

map-take {ℓ κ} :
    {A : Type ℓ} {B : Type κ} (f : A → B) (n : ℕ) (xs : List A)
    → map f (take n xs) ≡ take n (map f xs)
map-take f zero xs = refl
map-take f (suc n) [] = refl
map-take f (suc n) (x ∷ xs) = ap (λ t. f x ∷ t) (map-take f n xs)

go_crumb_lem :
    (cluster : Text) (index : ℕ) (nav : Nav)
    → act cluster (Action.go_crumb index) nav ≡ go_to cluster index nav
unfolding act
go_crumb_lem cluster index nav = refl

-- A click on the crumb with index `i`, once its hashchange is read, keeps exactly the crumbs up to
-- that one, whatever the index; nothing is thrown.
pub crumbs-go_to :
    (cluster : Text) (index : ℕ) (nav : Nav)
    → InStep cluster nav
    → (end : Nav) × (sync cluster (go_to cluster index nav) ≡ Outcome.returns end)
      × (crumbs end.route ≡ take (suc index) (crumbs nav.route))
unfolding crumbs
crumbs-go_to cluster index nav h =
    let (e, _) = act-sync cluster (Action.go_crumb index) nav h tt in
    (
      record {
        hash = (act cluster (Action.go_crumb index) nav).hash;
        route = after (Action.go_crumb index) nav.route;
      },
      rw (← go_crumb_lem cluster index nav) e,
      ap (λ t. root_label nav.route ∷ t) (map-take drill_label index nav.route.drills),
    )
