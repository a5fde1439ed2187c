-- ===== src/Topology/Tests.antt =====
-- A network of three containers, one of which is not on the map.
use wiremap.Base.{◌≡◌, refl, none, List, [], ◌∷◌, Text, codes, same_text}
use wiremap.DockerTypes.{ContainerInfo, NetworkContainer, NetworkInfo}
use wiremap.Topology.{topology_groups, topology_ids, topology_links, topology_nodes}

abbrev container : Text → ContainerInfo
container id = record {
  id = id;
  names = codes "/web" ∷ [];
  image = [];
  state = [];
  status = [];
  created = 0;
  ports = [];
  labels = [];
  networks = [];
}

abbrev containers : List ContainerInfo
containers = container (codes "a") ∷ container (codes "b") ∷ []

abbrev member : NetworkContainer
member = record { name = []; ipv4_address = []; mac_address = [] }

abbrev bridge : NetworkInfo
bridge = record {
  id = codes "n";
  name = codes "bridge";
  driver = [];
  scope = [];
  subnet = none;
  gateway = none;
  containers = (codes "a", member) ∷ (codes "z", member) ∷ (codes "b", member) ∷ [];
}

drawn :
    (topology_links (topology_ids (topology_nodes containers)) (bridge ∷ [])
      ≡ record { source = codes "a"; target = codes "b"; network = codes "bridge" } ∷ [])
    × (topology_groups (topology_ids (topology_nodes containers)) (bridge ∷ [])
        ≡ record {
          id = codes "n";
          name = codes "bridge";
          driver = [];
          scope = [];
          subnet = [];
          gateway = [];
          container_count = 2;
          nodes = codes "a" ∷ codes "b" ∷ [];
        }
          ∷ [])
unfolding topology_links topology_groups topology_nodes same_text
drawn = (refl, refl)
