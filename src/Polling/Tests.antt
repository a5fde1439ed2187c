-- ===== src/Polling/Tests.antt =====
-- A graph of two nodes, whose edge turns around without being shown.
use wiremap.Base.{◌≡◌, refl, true, none, some, List, [], ◌∷◌, Text, codes, same_text, join}
use wiremap.Format.{decimal}
use wiremap.KubeTypes.{
  KubeEdgeKind, KubeGraph, KubeGraphNode, KubeLevel, KubeView, KubeNodeStatus, bare_view,
}
use wiremap.Polling.Watching.{Event, last_asked, before, receive_all, receive_all-run, run}
use wiremap.Polling.{
  Answer, KubeTopology, Networks, ask_networks, graph_key, kept_containers, networks_answered,
  topology_answered, topology_changed, topology_loading, watch_namespace,
}

abbrev node : Text → KubeGraphNode
node name = record {
  id = name;
  kind = codes "Pod";
  api_group = none;
  name = name;
  namespace = none;
  status = KubeNodeStatus.healthy;
  summary = codes "1/1";
  drillable = true;
  group = none;
  weight = 1;
  details = none;
}

abbrev graph : Text → Text → KubeGraph
graph a b = record {
  level = KubeLevel.namespace;
  nodes = node (codes "a") ∷ node (codes "b") ∷ [];
  edges = record { source = a; target = b; kind = KubeEdgeKind.uses } ∷ [];
  groups = [];
}

abbrev shown : KubeTopology
shown = record { graph = some (graph (codes "a") (codes "b")); error = none }

abbrev networks : Networks
networks = record { networks = []; loading = true; error = none; initial_load = true }

states :
    (graph_key (graph (codes "a") (codes "b")) ≡ codes "a:healthy:1/1,b:healthy:1/1|1")
    × (topology_loading (some (bare_view KubeLevel.cluster)) (topology_changed shown) ≡ true)
    × ((networks_answered (Answer.failed (codes "gone")) (ask_networks (codes "h") networks)).error
        ≡ some (codes "gone"))
    × ((topology_answered (Answer.arrived (graph (codes "b") (codes "a"))) shown).graph
        ≡ some (graph (codes "a") (codes "b")))
    × (kept_containers [] [] ≡ [])
    × (watch_namespace
          (some (record (bare_view KubeLevel.object) { namespace = some (codes "shop") }))
        ≡ codes "shop")
unfolding graph_key topology_answered topology_loading topology_changed networks_answered
    ask_networks kept_containers watch_namespace join decimal same_text
states = (refl, refl, refl, refl, refl, refl)

abbrev at : Text → KubeView
at ns = record (bare_view KubeLevel.namespace) { namespace = some ns }

abbrev views : List Event
views =
    Event.changed (codes "prod") (some (at (codes "a")))
    ∷ Event.changed (codes "prod") none
    ∷ Event.changed (codes "prod") (some (at (codes "b")))
    ∷ []

receive_all-run_example : receive_all (run views before).sent [] ≡ last_asked views
receive_all-run_example = receive_all-run views
