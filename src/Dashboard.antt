-- ===== src/Dashboard.antt =====
-- The state and the handlers of
-- client/src/components/pages/kube_dashboard/KubeDashboard.vm.ts. The cluster, the kinds that it
-- serves and the ordered nodes of the visible graph are arguments: other hooks hold them.
pub mod Moving
pub mod Commands
pub mod Shown
pub mod Filled
mod Tests
use wiremap.Base.{
  ℕ, zero, suc, ◌+◌, ◌-◌, ◌%◌, Bool, true, false, not, ◌&&◌, ◌||◌, Option, none, some, List, [],
  ◌∷◌, ◌++◌, find, length, get_elem?, Text, codes, ◌==◌, text_eq, if◌then◌else◌,
}
use wiremap.Blank.{trim}
use wiremap.KubeTypes.{
  KubeGraph, KubeGraphNode, KubeKind, KubeRoot, KubeView, PanelAction, PanelRequest,
}
use wiremap.Navigation.{Nav, back, can_go_back, drill, set_root, view}
use wiremap.Command.{Found, KubeCommand, resolve_kube_command}
use wiremap.Graphs.{Category}
use wiremap.Hotkeys.{Delta, Hotkey, KeyEvent, hotkey}

pub data Display : Type 0 where
  map list : Display

pub data Prompt : Type 0 where
  command filter : Prompt

-- `nav` is the state of the navigation, `panel_expanded` that of the side panel.
pub record Dashboard : Type 0 where
  pub nav : Nav
  pub selected : Option KubeGraphNode
  pub panel_request : Option PanelRequest
  pub category : Category
  pub display : Display
  pub prompt : Option Prompt
  pub command : Text
  pub command_error : Option Text
  pub filter : Text
  pub panel_expanded : Bool

abbrev is_pod_or_container : KubeGraphNode → Bool
is_pod_or_container n = n.kind == codes "Pod" || n.kind == codes "Container"

unfoldable pub has_shell : Option KubeGraphNode → Bool
has_shell none = false
has_shell (some n) = is_pod_or_container n

-- The effect of a new `viewKey`.
unfoldable pub view_changed : Dashboard → Dashboard
view_changed s = record s { selected = none; filter = []; panel_expanded = false }

abbrev or_selected : Option KubeGraphNode → Dashboard → Dashboard
or_selected none s = s
or_selected (some fresh) s = record s { selected = some fresh }

-- The effect of a new graph.
unfoldable pub graph_changed : Option KubeGraph → Dashboard → Dashboard
graph_changed none s = s
graph_changed (some g) s = elim s.selected [
  | none ↦ s
  | some old ↦ or_selected (find (λ (n : KubeGraphNode). n.id == old.id) g.nodes) s
]

unfoldable pub handle_select : Option KubeGraphNode → Dashboard → Dashboard
handle_select none s = record s { selected = none; panel_request = none; panel_expanded = false }
handle_select (some n) s = record s { selected = some n; panel_request = none }

unfoldable pub handle_close : Dashboard → Dashboard
unfolding handle_select
handle_close s = handle_select none s

abbrev next_seq : Option PanelRequest → ℕ
next_seq none = 1
next_seq (some r) = r.seq + 1

unfoldable pub request_panel : PanelAction → Dashboard → Dashboard
request_panel action s = record s {
  panel_request = some (record { action = action; seq = next_seq s.panel_request });
}

-- A member that every object inherits has neither a type nor a kind, and its hash is that of a
-- kind named "undefined".
abbrev pub root_of_found : Found → KubeRoot
root_of_found (Found.root r) = r
root_of_found Found.inherited = KubeRoot.kind [] (codes "undefined")

abbrev pub or_namespace : Option Text → Dashboard → Text
or_namespace none s = s.nav.route.namespace
or_namespace (some ns) s = ns

module _ (cluster : Text) where
  unfoldable pub open_node : KubeGraphNode → Dashboard → Dashboard
  unfolding handle_select request_panel
  open_node n s =
      if n.kind == codes "Container"
      then request_panel PanelAction.logs (handle_select (some n) s)
      else if n.drillable
      then record s { nav = drill cluster n s.nav }
      else handle_select (some n) s

  unfoldable pub open_selected : Dashboard → Dashboard
  unfolding open_node
  open_selected s = elim s.selected [ none ↦ s | some n ↦ open_node n s ]

  unfoldable pub go_back : Dashboard → Dashboard
  go_back s = if can_go_back s.nav.route then record s { nav = back cluster s.nav } else s

  unfoldable pub escape : Dashboard → Dashboard
  unfolding handle_close go_back
  escape s = elim s.selected [ none ↦ go_back s | some n ↦ handle_close s ]

  abbrev pub submit_result : Option KubeCommand → Dashboard → Dashboard
  submit_result none s = record s {
    command_error = some (codes "Unknown resource \"" ++ (trim s.command ++ codes "\""));
  }
  submit_result (some c) s = record s {
    prompt = none;
    command_error = none;
    nav = set_root cluster (root_of_found c.root) (some (or_namespace c.namespace s)) s.nav;
  }

  unfoldable pub submit_command : (Text → Text) → List KubeKind → Dashboard → Dashboard
  submit_command lower kinds s = submit_result (resolve_kube_command lower s.command kinds) s

unfoldable pub ask_command : Dashboard → Dashboard
ask_command s = record s { command = []; command_error = none; prompt = some Prompt.command }

unfoldable pub ask_filter : Dashboard → Dashboard
ask_filter s = record s { prompt = some Prompt.filter }

unfoldable pub find_index : Text → List KubeGraphNode → Option ℕ
find_index id [] = none
find_index id (n ∷ ns) =
    let later = find_index id ns in
    if n.id == id then some 0 else elim later [ none ↦ none | some i ↦ some (suc i) ]

-- `index + delta`, where `index` is at least 0 and the count is added after it.
abbrev pub moved : Delta → ℕ → ℕ → ℕ
moved Delta.down i n = (i + 1 + n) % n
moved Delta.up i n = (i + n - 1) % n

abbrev pub next_index : Delta → Option ℕ → ℕ → ℕ
next_index Delta.down none n = 0
next_index Delta.up none n = n - 1
next_index d (some i) n = moved d i n

abbrev pub index_of_selected : Option KubeGraphNode → List KubeGraphNode → Option ℕ
index_of_selected none ordered = none
index_of_selected (some n) ordered = find_index n.id ordered

unfoldable pub move : List KubeGraphNode → Delta → Dashboard → Dashboard
unfolding find_index handle_select
move [] d s = s
move (n ∷ ns) d s =
    let ordered = n ∷ ns in
    handle_select
      (get_elem? ordered (next_index d (index_of_selected s.selected ordered) (length ordered))) s

abbrev needs_shell : PanelAction → Bool
needs_shell PanelAction.logs = true
needs_shell PanelAction.shell = true
needs_shell _ = false

unfoldable pub panel : PanelAction → Dashboard → Dashboard
unfolding has_shell request_panel
panel action s = elim s.selected [
  | none ↦ s
  | some n ↦ if needs_shell action && not (has_shell (some n)) then s else request_panel action s
]

unfoldable pub handle : Text → List KubeGraphNode → Hotkey → Dashboard → Dashboard
unfolding ask_command ask_filter open_selected escape go_back move panel
handle cluster ordered Hotkey.command s = ask_command s
handle cluster ordered Hotkey.filter s = ask_filter s
handle cluster ordered Hotkey.opens s = open_selected cluster s
handle cluster ordered Hotkey.escape s = escape cluster s
handle cluster ordered Hotkey.back s = go_back cluster s
handle cluster ordered (Hotkey.move d) s = move ordered d s
handle cluster ordered (Hotkey.panel action) s = panel action s

unfoldable pub press : Text → List KubeGraphNode → KeyEvent → Dashboard → Dashboard
unfolding hotkey handle
press cluster ordered e s = elim (hotkey e) [ none ↦ s | some h ↦ handle cluster ordered h s ]

-- A pod, or a container inside the view of a pod: the name of the pod and of the container.
abbrev container_of : Option KubeView → KubeGraphNode → Option (Text × Option Text)
container_of none n = none
container_of (some v) n =
    if same_kind v.kind && n.kind == codes "Container" then named v.name n else none
  where
    same_kind : Option Text → Bool
    same_kind none = false
    same_kind (some k) = k == codes "Pod"

    named : Option Text → KubeGraphNode → Option (Text × Option Text)
    named none n = none
    named (some []) n = none
    named (some (c ∷ name)) n = some (c ∷ name, some n.name)

unfoldable pub pod_selection : Dashboard → Option (Text × Option Text)
pod_selection s = elim s.selected [
  | none ↦ none
  | some n ↦
      if n.kind == codes "Pod" then some (n.name, none) else container_of (view s.nav.route) n
]
