-- ===== src/Dashboard/Tests.antt =====
-- The dashboard at a cluster with two nodes in its graph, and a typed command.
use wiremap.Base.{
  Distinct, ◌≡◌, ◌≢◌, refl, true, false, none, some, List, [], ◌∷◌, Text, codes, same_text,
}
use wiremap.Blank.{trim}
use wiremap.KubeTypes.{KubeGraphNode, KubeNodeStatus, PanelAction}
use wiremap.Route.{default_route}
use wiremap.Navigation.{Nav}
use wiremap.Graphs.{Category, node_ids, visible_graph}
use wiremap.Hotkeys.{KeyEvent, hotkey}
use wiremap.Dashboard.{Dashboard, Display, Prompt, pod_selection, press}
use wiremap.Dashboard.Moving.{IsAt}
use wiremap.Dashboard.Shown.{Loaded, hints, placeholder, shown_graph}
use wiremap.Dashboard.Filled.{placeholder-none}
use wiremap.Objects.{KubeObjects}
use wiremap.Polling.{topology_loading}
use wiremap.KubeTypes.{KubeGraph, KubeLevel}

abbrev prod : Text
prod = codes "prod"

abbrev node : Text → KubeGraphNode
node name = record {
  id = name;
  kind = codes "Pod";
  api_group = none;
  name = name;
  namespace = none;
  status = KubeNodeStatus.healthy;
  summary = [];
  drillable = true;
  group = none;
  weight = 1;
  details = none;
}

abbrev ordered : List KubeGraphNode
ordered = node (codes "api") ∷ node (codes "web") ∷ []

abbrev home : Nav
home = record { hash = codes "#/k8s/prod/*/overview"; route = default_route prod }

abbrev start : Dashboard
start = record {
  nav = home;
  selected = some (node (codes "web"));
  panel_request = none;
  category = Category.all;
  display = Display.map;
  prompt = some Prompt.command;
  command = codes "no";
  command_error = none;
  filter = [];
  panel_expanded = false;
}

abbrev key : Text → KeyEvent
key k = record {
  key = k;
  ctrl_key = false;
  meta_key = false;
  alt_key = false;
  is_typing = false;
  on_button = false;
}

keys :
    ((press prod ordered (key (codes "j")) start).selected ≡ some (node (codes "api")))
    × ((press prod ordered (key (codes "Escape")) start).selected ≡ none)
    × ((press prod ordered (key (codes "l")) start).panel_request
        ≡ some (record { action = PanelAction.logs; seq = 1 }))
    × (hotkey (record (key (codes "j")) { is_typing = true }) ≡ none)
    × (pod_selection start ≡ some (codes "web", none))
unfolding press hotkey pod_selection same_text
keys = (refl, refl, refl, refl, refl)

web_selected : IsAt ordered 1 start
web_selected = record { node = node (codes "web"); selected = refl; listed = refl }

ordered-Distinct : Distinct (node_ids ordered)
unfolding same_text
ordered-Distinct = (refl, (refl, tt))

abbrev pods : KubeGraph
pods = record { level = KubeLevel.cluster; nodes = ordered; edges = []; groups = [] }

abbrev no_objects : KubeObjects
no_objects = record {
  scope = record { cluster = prod; kind = none; namespace = [] };
  items = none;
  continue_token = [];
  error = none;
  loading_more = false;
  extra_pages = 0;
  requests = [];
}

abbrev loaded : Loaded
loaded = record {
  route = default_route prod;
  kinds = [];
  kinds_loading = true;
  topology = record { graph = some pods; error = none };
  objects = no_objects;
  namespaces = [];
}

loaded-filled : placeholder loaded (shown_graph (λ s. s) (λ s. s) loaded start) start.filter ≡ none
unfolding placeholder shown_graph same_text trim topology_loading visible_graph
loaded-filled = refl

placeholder-none_example :
    (g : KubeGraph) × (shown_graph (λ s. s) (λ s. s) loaded start ≡ some g) × (g.nodes ≢ [])
placeholder-none_example = placeholder-none (λ s. s) (λ s. s) loaded (λ e. cc) start loaded-filled

hints_at_rest :
    hints none true
    ≡ record { keys = codes ":"; label = codes "resources" }
      ∷ record { keys = codes "/"; label = codes "filter" }
      ∷ record { keys = codes "↑↓"; label = codes "select" }
      ∷ record { keys = codes "esc"; label = codes "back" }
      ∷ []
unfolding hints
hints_at_rest = refl
