-- ===== src/Containers/Tests.antt =====
-- Two containers, one of them in a network.
use wiremap.Base.{
  ◌≡◌, refl, false, ◌&&◌, ◌||◌, none, [], ◌∷◌, map, Text, codes, includes, same_text,
}
use wiremap.Blank.{trim}
use wiremap.DockerTypes.{ContainerInfo, NetworkInfo}
use wiremap.Containers.{
  StateFilter, container_display_name, container_ids, filtered, groups, ungrouped, NetworkGroup,
}
use wiremap.Containers.Grouping.{grouped, groups-ungrouped}

abbrev container : Text → Text → Text → ContainerInfo
container id name state = record {
  id = id;
  names = name ∷ [];
  image = codes "nginx";
  state = state;
  status = [];
  created = 0;
  ports = [];
  labels = [];
  networks = [];
}

abbrev web : ContainerInfo
web = container (codes "a") (codes "/web") (codes "running")

abbrev job : ContainerInfo
job = container (codes "b") (codes "/job") (codes "exited")

abbrev bridge : NetworkInfo
bridge = record {
  id = codes "n";
  name = codes "bridge";
  driver = codes "bridge";
  scope = codes "local";
  subnet = none;
  gateway = none;
  containers =
      (codes "a", record { name = codes "web"; ipv4_address = []; mac_address = [] })
      ∷ (codes "z", record { name = codes "old"; ipv4_address = []; mac_address = [] })
      ∷ [];
}

lists :
    (map (λ (g : NetworkGroup). g.containers) (groups (web ∷ job ∷ []) (bridge ∷ []))
      ≡ (web ∷ []) ∷ [])
    × (ungrouped (web ∷ job ∷ []) (bridge ∷ []) ≡ job ∷ [])
    × (filtered (λ s. s) StateFilter.running (codes " web") (web ∷ job ∷ []) ≡ web ∷ [])
    × (container_display_name web ≡ codes "web")
unfolding groups ungrouped filtered container_display_name same_text trim
lists = (refl, refl, refl, refl)

groups-ungrouped_example :
    (includes (codes "a") (container_ids (web ∷ job ∷ []))
      ≡ includes (codes "a") (container_ids (grouped (groups (web ∷ job ∷ []) (bridge ∷ []))))
        || includes (codes "a") (container_ids (ungrouped (web ∷ job ∷ []) (bridge ∷ []))))
    × (includes (codes "a") (container_ids (grouped (groups (web ∷ job ∷ []) (bridge ∷ []))))
          && includes (codes "a") (container_ids (ungrouped (web ∷ job ∷ []) (bridge ∷ [])))
        ≡ false)
groups-ungrouped_example = groups-ungrouped (web ∷ job ∷ []) (bridge ∷ []) (codes "a")
