-- ===== src/Polling.antt =====
-- The hooks that ask again and again and keep what they show while nothing seems to have changed:
-- client/src/hooks/useKubeTopology.ts, useNetworks.ts and useContainers.ts. A request is two steps:
-- an answer is the data, or the message of an error.
pub mod Watching
mod Tests
use wiremap.Base.{
  ℕ, Bool, true, false, Option, none, some, List, [], ◌∷◌, ◌++◌, map, length, join, Text, codes,
  same_text, ◌==◌, text_eq, if◌then◌else◌,
}
use wiremap.Format.{decimal}
use wiremap.Route.{is_truthy, or_else}
use wiremap.KubeTypes.{KubeGraph, KubeGraphNode, KubeLevel, KubeNodeStatus, KubeView}
use wiremap.DockerTypes.{ContainerInfo, NetworkInfo}

pub data Answer (A : Type 0) : Type 0 where
  arrived : A → Answer A
  failed : (message : Text) → Answer A

abbrev pub status_text : KubeNodeStatus → Text
status_text KubeNodeStatus.idle = codes "idle"
status_text KubeNodeStatus.healthy = codes "healthy"
status_text KubeNodeStatus.warning = codes "warning"
status_text KubeNodeStatus.error = codes "error"

abbrev pub node_key : KubeGraphNode → Text
node_key n = n.id ++ (b':' ∷ (status_text n.status ++ (b':' ∷ n.summary)))

unfoldable pub graph_key : KubeGraph → Text
unfolding decimal join
graph_key g = join b',' (map node_key g.nodes) ++ (b'|' ∷ decimal (length g.edges))

pub record KubeTopology : Type 0 where
  pub graph : Option KubeGraph
  pub error : Option Text

-- The new graph, or the shown one if their keys are the same.
abbrev pub kept_graph : Option KubeGraph → KubeGraph → KubeGraph
kept_graph none next = next
kept_graph (some prev) next = if graph_key prev == graph_key next then prev else next

unfoldable pub topology_answered : Answer KubeGraph → KubeTopology → KubeTopology
unfolding graph_key
topology_answered (Answer.arrived next) s = record {
  graph = some (kept_graph s.graph next);
  error = none;
}
topology_answered (Answer.failed message) s = record s { error = some message }

-- The effect of another cluster or view.
unfoldable pub topology_changed : KubeTopology → KubeTopology
topology_changed s = record { graph = none; error = none }

abbrev watched_at : KubeLevel → Option Text → Text
watched_at KubeLevel.namespace ns = or_else ns []
watched_at KubeLevel.object ns = or_else ns []
watched_at _ ns = []

-- The namespace whose changes the hook watches.
unfoldable pub watch_namespace : Option KubeView → Text
watch_namespace none = []
watch_namespace (some view) = watched_at view.level view.namespace

unfoldable pub topology_loading : Option KubeView → KubeTopology → Bool
topology_loading none s = false
topology_loading (some view) s = elim s.graph [
  | none ↦ elim s.error [ none ↦ true | some m ↦ false ]
  | some g ↦ false
]

pub record Networks : Type 0 where
  pub networks : List NetworkInfo
  pub loading : Bool
  pub error : Option Text
  pub initial_load : Bool

unfoldable pub networks_key : List NetworkInfo → Text
unfolding join
networks_key nets = join b',' (map (λ (n : NetworkInfo). n.id) nets)

-- `refresh` before its request, which it makes for a host only.
unfoldable pub ask_networks : (host : Text) → Networks → Networks
ask_networks host s =
    if is_truthy host then if s.initial_load then record s { loading = true } else s else s

unfoldable pub networks_answered : Answer (List NetworkInfo) → Networks → Networks
unfolding networks_key
networks_answered (Answer.arrived next) s = record {
  networks = if networks_key s.networks == networks_key next then s.networks else next;
  loading = false;
  error = none;
  initial_load = false;
}
networks_answered (Answer.failed message) s = record s {
  error = some message;
  loading = false;
  initial_load = false;
}

unfoldable pub containers_key : List ContainerInfo → Text
unfolding join
containers_key cs = join b',' (map (λ (c : ContainerInfo). c.id ++ (b':' ∷ c.state)) cs)

-- The setter's function in `useContainers`.
unfoldable pub kept_containers : List ContainerInfo → List ContainerInfo → List ContainerInfo
unfolding containers_key
kept_containers prev next = if containers_key prev == containers_key next then prev else next

pub record Containers : Type 0 where
  pub containers : List ContainerInfo
  pub loading : Bool
  pub error : Option Text
  pub initial_load : Bool

-- `refresh` before its request, which it makes for a host only, and from the answer on.
unfoldable pub ask_containers : (host : Text) → Containers → Containers
ask_containers host s =
    if is_truthy host then if s.initial_load then record s { loading = true } else s else s

unfoldable pub containers_answered : Answer (List ContainerInfo) → Containers → Containers
unfolding kept_containers
containers_answered (Answer.arrived next) s = record {
  containers = kept_containers s.containers next;
  loading = false;
  error = none;
  initial_load = false;
}
containers_answered (Answer.failed message) s = record s {
  error = some message;
  loading = false;
  initial_load = false;
}

-- The effect of another host.
unfoldable pub host_changed : (host : Text) → Containers → Containers
unfolding ask_containers
host_changed host s = ask_containers host (record s { containers = []; initial_load = true })
