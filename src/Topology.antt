-- ===== src/Topology.antt =====
-- The topology of containers and networks,
-- client/src/components/organisms/topology_canvas/TopologyCanvas.vm.ts. The saved positions, which
-- are floating-point numbers, and the colours are left out.
pub mod Links
mod Tests
use wiremap.Base.{
  ℕ, Bool, Option, none, some, List, [], ◌∷◌, ◌++◌, map, keep, length, Text, includes,
}
use wiremap.Route.{or_else}
use wiremap.DockerTypes.{ContainerInfo, ContainerNetwork, NetworkInfo}
use wiremap.Containers.{container_display_name, member_ids}

pub record TopologyNode : Type 0 where
  pub id : Text
  pub name : Text
  pub image : Text
  pub state : Text
  pub networks : List Text

pub record TopologyLink : Type 0 where
  pub source : Text
  pub target : Text
  pub network : Text

pub record TopologyGroup : Type 0 where
  pub id : Text
  pub name : Text
  pub driver : Text
  pub scope : Text
  pub subnet : Text
  pub gateway : Text
  pub container_count : ℕ
  pub nodes : List Text

unfoldable pub topology_node : ContainerInfo → TopologyNode
unfolding container_display_name
topology_node c = record {
  id = c.id;
  name = container_display_name c;
  image = c.image;
  state = c.state;
  networks = map (λ (n : Text × ContainerNetwork). n.0) c.networks;
}

unfoldable pub topology_nodes : List ContainerInfo → List TopologyNode
unfolding topology_node
topology_nodes containers = map topology_node containers

abbrev pub topology_ids : List TopologyNode → List Text
topology_ids ns = map (λ (n : TopologyNode). n.id) ns

-- `containerIds` of a network.
unfoldable pub ids_in : List Text → NetworkInfo → List Text
ids_in ids net = keep (λ id. includes id ids) (member_ids net.containers)

abbrev group_for : NetworkInfo → List Text → TopologyGroup
group_for net ids = record {
  id = net.id;
  name = net.name;
  driver = or_else (some net.driver) [];
  scope = or_else (some net.scope) [];
  subnet = or_else net.subnet [];
  gateway = or_else net.gateway [];
  container_count = length ids;
  nodes = ids;
}

-- The two loops over the ids: a link from each to each later one.
unfoldable pub links_among : Text → List Text → List TopologyLink
links_among network [] = []
links_among network (x ∷ xs) =
    map (λ y. record { source = x; target = y; network = network }) xs ++ links_among network xs

-- The loop over the networks: one that has no containers adds nothing.
unfoldable pub topology_groups : List Text → List NetworkInfo → List TopologyGroup
unfolding ids_in
topology_groups ids [] = []
topology_groups ids (net ∷ nets) =
    let rest = topology_groups ids nets in
    elim net.containers [ [] ↦ rest | m ∷ ms ↦ group_for net (ids_in ids net) ∷ rest ]

unfoldable pub topology_links : List Text → List NetworkInfo → List TopologyLink
unfolding ids_in links_among
topology_links ids [] = []
topology_links ids (net ∷ nets) =
    let rest = topology_links ids nets in
    elim net.containers [ [] ↦ rest | m ∷ ms ↦ links_among net.name (ids_in ids net) ++ rest ]
