-- ===== src/Navigation/Actions.antt =====
-- The operations of the navigation as data, what each means for the route, and what they need of
-- the names involved.
use wiremap.Base.{
  drop_last, ℕ, ◌≡◌, ◌≢◌, refl, inl, inr, not, Option, none, some, List, [], ◌∷◌, ◌++◌, Text, codes,
  All, All-append, All-take, take, arith, Bool-cases, same_text, same_text_iff, if◌then◌else◌, ◌==◌,
  text_eq,
}
use wiremap.KubeTypes.{KubeGraphNode, KubeRoot, KubeView}
use wiremap.Route.{all_namespaces, no_namespace, KubeRoute, or_else, node_view, object_view}
use wiremap.Route.Laws.{IsText, IsKindName, IsRoot, IsDrill, IsRoute}
use wiremap.Navigation.{Nav, drill, back, go_to, set_namespace, set_root, or_current}

pub data Action : Type 0 where
  drill_node : KubeGraphNode → Action
  go_back : Action
  go_crumb : ℕ → Action
  pick_namespace : Text → Action
  pick_root : KubeRoot → Option Text → Action

unfoldable pub act : Text → Action → Nav → Nav
unfolding drill back go_to set_namespace set_root
act cluster (Action.drill_node node) nav = drill cluster node nav
act cluster Action.go_back nav = back cluster nav
act cluster (Action.go_crumb index) nav = go_to cluster index nav
act cluster (Action.pick_namespace next) nav = set_namespace cluster next nav
act cluster (Action.pick_root next namespace) nav = set_root cluster next namespace nav

-- The view that the hash keeps of an opened object: an absent namespace is the empty one.
abbrev pub kept_view : KubeGraphNode → KubeView
kept_view node =
    object_view (or_else node.namespace []) node.kind (or_else node.api_group []) node.name

abbrev pub opened : KubeGraphNode → KubeRoute → KubeRoute
opened node r =
    if not node.drillable
    then r
    else if node.kind == codes "Namespace"
    then record r { namespace = node.name; root = KubeRoot.overview; drills = [] }
    else if node.kind == codes "Node"
    then record r { drills = r.drills ++ (node_view node.name ∷ []) }
    else record r { drills = r.drills ++ (kept_view node ∷ []) }

-- What each operation means for the route.
abbrev pub after : Action → KubeRoute → KubeRoute
after (Action.drill_node node) r = opened node r
after Action.go_back r = record r { drills = drop_last r.drills }
after (Action.go_crumb index) r = record r { drills = take index r.drills }
after (Action.pick_namespace next) r = record r { namespace = next; drills = [] }
after (Action.pick_root next namespace) r = record r {
  namespace = or_current namespace r.namespace;
  root = next;
  drills = [];
}

-- The names of a graph node that can be opened.
pub record IsOpenable (node : KubeGraphNode) : Type 0 where
  pub name_text : IsText node.name
  pub kind_name : IsKindName node.kind
  pub group_text : IsText (or_else node.api_group [])
  pub namespace_text : IsText (or_else node.namespace [])
  pub namespace_name : or_else node.namespace [] ≢ no_namespace
  pub scope_name : node.kind ≡ codes "Namespace" → node.name ≢ all_namespaces

abbrev pub IsNamespace : Text → Type 0
IsNamespace s = IsText s × (s ≢ all_namespaces)

abbrev pub IsAction : Action → Type 0
IsAction (Action.drill_node node) = IsOpenable node
IsAction Action.go_back = Unit
IsAction (Action.go_crumb index) = Unit
IsAction (Action.pick_namespace next) = IsNamespace next
IsAction (Action.pick_root next none) = IsRoot next
IsAction (Action.pick_root next (some namespace)) = IsRoot next × IsNamespace namespace

drills-IsRoute :
    (r : KubeRoute) (ds : List KubeView)
    → IsRoute r
    → All IsDrill ds
    → IsRoute (record r { drills = ds })
drills-IsRoute r ds h k = record {
  cluster_text = h.cluster_text;
  has_cluster = h.has_cluster;
  namespace_text = h.namespace_text;
  namespace_name = h.namespace_name;
  root_ok = h.root_ok;
  drills_ok = k;
}

rooted-IsRoute :
    (r : KubeRoute) (namespace : Text) (root : KubeRoot)
    → IsRoute r
    → IsNamespace namespace
    → IsRoot root
    → IsRoute (record r { namespace = namespace; root = root; drills = [] })
rooted-IsRoute r namespace root h n k = record {
  cluster_text = h.cluster_text;
  has_cluster = h.has_cluster;
  namespace_text = n.0;
  namespace_name = n.1;
  root_ok = k;
  drills_ok = tt;
}

All-drop_last : (ds : List KubeView) → All IsDrill ds → All IsDrill (drop_last ds)
All-drop_last [] h = tt
All-drop_last (d ∷ []) h = tt
All-drop_last (d ∷ e ∷ ds) h = (h.0, All-drop_last (e ∷ ds) h.1)

kept_view-IsDrill :
    (node : KubeGraphNode) → IsOpenable node → node.kind ≢ codes "Node" → IsDrill (kept_view node)
kept_view-IsDrill node h n =
    IsDrill.object _ node.kind _ node.name h.namespace_text h.namespace_name h.kind_name
      h.group_text (λ e. absurd (n e)) h.name_text refl

pushed-IsRoute :
    (r : KubeRoute) (v : KubeView)
    → IsRoute r
    → IsDrill v
    → IsRoute (record r { drills = r.drills ++ (v ∷ []) })
pushed-IsRoute r v h k =
    drills-IsRoute r _ h (All-append IsDrill r.drills (v ∷ []) h.drills_ok (k, tt))

opened-IsRoute :
    (node : KubeGraphNode) (r : KubeRoute) → IsOpenable node → IsRoute r → IsRoute (opened node r)
opened-IsRoute node r h k = elim (Bool-cases node.drillable) [
  | inr no_drill ↦ rw no_drill k
  | inl drills ↦ elim (Bool-cases (same_text node.kind (codes "Namespace"))) [
    | inl e ↦
        rw (drills, e)
          (rooted-IsRoute r node.name KubeRoot.overview k
            (h.name_text, h.scope_name ((same_text_iff _ _).0 e)) tt)
    | inr e ↦ elim (Bool-cases (same_text node.kind (codes "Node"))) [
      | inl f ↦
          rw (drills, e, f)
            (pushed-IsRoute r (node_view node.name) k (IsDrill.node node.name h.name_text refl))
      | inr f ↦
          rw (drills, e, f)
            (pushed-IsRoute r (kept_view node) k (
              kept_view-IsDrill node h
                (λ p. ground (arith, same_text_iff node.kind (codes "Node")))))
    ]
  ]
]

pub after-IsRoute : (a : Action) (r : KubeRoute) → IsAction a → IsRoute r → IsRoute (after a r)
after-IsRoute (Action.drill_node node) r h k = opened-IsRoute node r h k
after-IsRoute Action.go_back r h k = drills-IsRoute r _ k (All-drop_last r.drills k.drills_ok)
after-IsRoute (Action.go_crumb index) r h k =
    drills-IsRoute r _ k (All-take IsDrill index r.drills k.drills_ok)
after-IsRoute (Action.pick_namespace next) r h k = rooted-IsRoute r next r.root k h k.root_ok
after-IsRoute (Action.pick_root next none) r h k =
    rooted-IsRoute r _ next k (k.namespace_text, k.namespace_name) h
after-IsRoute (Action.pick_root next (some namespace)) r h k =
    rooted-IsRoute r namespace next k h.1 h.0

opened-cluster : (node : KubeGraphNode) (r : KubeRoute) → (opened node r).cluster ≡ r.cluster
opened-cluster node r = ground arith

pub after-cluster : (a : Action) (r : KubeRoute) → (after a r).cluster ≡ r.cluster
after-cluster (Action.drill_node node) r = opened-cluster node r
after-cluster Action.go_back r = refl
after-cluster _ r = refl
