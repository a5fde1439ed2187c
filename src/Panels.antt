-- ===== src/Panels.antt =====
-- The panels of the dashboards, below client/src/components/organisms: pod_panel/PodPanel.vm.ts and
-- resource_panel/ResourcePanel.vm.ts here, manifest_view, container_panel with its port, volume and
-- network views, and the rows of kube_object_list and kube_events_view in the children.
pub mod Manifest
pub mod Saving
pub mod Inspecting
pub mod Rows
pub mod Opening
mod Tests
use wiremap.Base.{
  ℕ, Bool, true, false, not, Option, none, some, List, [], ◌∷◌, ◌++◌, map, find, keep, Text, codes,
  join, ◌==◌, nat_eq, text_eq, if◌then◌else◌,
}
use wiremap.KubeTypes.{
  KubeContainer, KubeGraphNode, KubeNodeStatus, KubePod, KubeResource, PanelAction, PanelRequest,
  PodTarget,
}
use wiremap.Route.{is_truthy, or_else}
use wiremap.Uri.{encode_uri_component}
use wiremap.Api.Calls.{KubeTarget}

pub record Tab : Type 0 where
  pub id : Text
  pub label : Text

abbrev tab : Text → Text → Tab
tab id label = record { id = id; label = label }

abbrev pub pod_tabs : List Tab
pod_tabs =
    tab (codes "logs") (codes "Logs")
    ∷ tab (codes "metrics") (codes "Metrics")
    ∷ tab (codes "console") (codes "Console")
    ∷ tab (codes "yaml") (codes "YAML")
    ∷ tab (codes "events") (codes "Events")
    ∷ []

abbrev pub pod_request_tab : PanelAction → Text
pod_request_tab PanelAction.logs = codes "logs"
pod_request_tab PanelAction.shell = codes "console"
pod_request_tab PanelAction.yaml = codes "yaml"
pod_request_tab PanelAction.describe = codes "events"

abbrev pub status_badge : KubeNodeStatus → Text
status_badge KubeNodeStatus.healthy = codes "success"
status_badge KubeNodeStatus.warning = codes "warning"
status_badge KubeNodeStatus.error = codes "error"
status_badge KubeNodeStatus.idle = codes "default"

-- `a || b` of containers.
abbrev pub or_container : Option KubeContainer → Option KubeContainer → Option KubeContainer
or_container none d = d
or_container (some c) d = some c

abbrev pub first_container : List KubeContainer → Option KubeContainer
first_container [] = none
first_container (c ∷ cs) = some c

abbrev pub is_called : Option Text → KubeContainer → Bool
is_called none c = false
is_called (some name) c = c.name == name

abbrev pub is_app : KubeContainer → Bool
is_app c = not c.init

unfoldable pub opened_container : Option Text → List KubeContainer → Option KubeContainer
opened_container initial cs =
    or_container (find (is_called initial) cs) (or_container (find is_app cs) (first_container cs))

abbrev containers_of : Option KubePod → List KubeContainer
containers_of none = []
containers_of (some p) = p.containers

abbrev name_of : Option KubeContainer → Text
name_of none = []
name_of (some c) = c.name

-- What the panel keeps, and the pod of useKubePod when the effects last ran.
pub record PodPanel : Type 0 where
  pub active_tab : Text
  pub container : Text

abbrev pub pod_panel : PodPanel
pod_panel = record { active_tab = codes "logs"; container = [] }

unfoldable pub requested : Option PanelRequest → PodPanel → PodPanel
requested none s = s
requested (some r) s = record s { active_tab = pod_request_tab r.action }

-- The effect on a pod that is loaded, or is not yet.
unfoldable pub pod_loaded : Option KubePod → Option Text → PodPanel → PodPanel
unfolding opened_container
pod_loaded pod initial s = record s {
  container = name_of (opened_container initial (containers_of pod));
}

unfoldable pub pod_target : Text → Text → Text → PodPanel → Option PodTarget
pod_target cluster namespace name s =
    if is_truthy s.container
    then some
        (record { cluster = cluster; namespace = namespace; pod = name; container = s.container })
    else none

unfoldable pub exec_path : PodTarget → Text
unfolding encode_uri_component join
exec_path t =
    codes "/ws/k8s/exec/"
    ++ (join b'/' (
          encode_uri_component t.cluster
          ∷ encode_uri_component t.namespace
          ∷ encode_uri_component t.pod
          ∷ [])
        ++ (codes "?container=" ++ encode_uri_component t.container))

pub record ContainerOption : Type 0 where
  pub value : Text
  pub label : Text

unfoldable pub container_option : KubeContainer → ContainerOption
container_option c = record {
  value = c.name;
  label =
      (if c.init then codes "init: " else [])
      ++ (c.name ++ (codes " (" ++ (or_else c.reason c.state ++ codes ")")));
}

-- `saveYaml` is offered.
abbrev pub can_save : Option KubeResource → Bool
can_save none = false
can_save (some r) = r.actions.edit

-- ResourcePanel.vm.ts.
abbrev pub resource_tabs : List Tab
resource_tabs =
    tab (codes "overview") (codes "Overview")
    ∷ tab (codes "yaml") (codes "YAML")
    ∷ tab (codes "events") (codes "Events")
    ∷ []

abbrev pub resource_request_tab : PanelAction → Option Text
resource_request_tab PanelAction.yaml = some (codes "yaml")
resource_request_tab PanelAction.describe = some (codes "overview")
resource_request_tab PanelAction.logs = none
resource_request_tab PanelAction.shell = none

unfoldable pub resource_requested : Option PanelRequest → Text → Text
resource_requested none active = active
resource_requested (some r) active = elim (resource_request_tab r.action) [
  | none ↦ active
  | some id ↦ id
]

unfoldable pub target_of : Text → KubeGraphNode → KubeTarget
target_of cluster n = record {
  cluster = cluster;
  kind = n.kind;
  group = or_else n.api_group [];
  name = n.name;
  namespace = n.namespace;
}

abbrev status_word : KubeNodeStatus → Text
status_word KubeNodeStatus.healthy = codes "healthy"
status_word KubeNodeStatus.warning = codes "warning"
status_word KubeNodeStatus.error = codes "error"
status_word KubeNodeStatus.idle = codes "idle"

abbrev field_if : Text → Text → List (Text × Text)
field_if label value = if is_truthy value then (label, value) ∷ [] else []

abbrev details_of : Option (List (Text × Text)) → List (Text × Text)
details_of none = []
details_of (some ds) = keep (λ (d : Text × Text). is_truthy d.1) ds

abbrev kind_text : KubeGraphNode → Text
kind_text n =
    if is_truthy (or_else n.api_group [])
    then n.kind ++ (codes " (" ++ (or_else n.api_group [] ++ codes ")"))
    else n.kind

unfoldable pub overview : KubeGraphNode → List (Text × Text)
overview n =
    (codes "Kind", kind_text n)
    ∷ (field_if (codes "Namespace") (or_else n.namespace [])
        ++ ((codes "Status", status_word n.status)
            ∷ (field_if (codes "Summary") n.summary ++ details_of n.details)))
