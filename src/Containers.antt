-- ===== src/Containers.antt =====
-- The grouped list of containers,
-- client/src/components/organisms/container_list/ContainerList.vm.ts. `toLowerCase` is the argument
-- `lower`; the colour of a group is left out.
pub mod Grouping
mod Tests
use wiremap.Base.{
  ℕ, Bool, true, false, not, ◌&&◌, ◌||◌, Option, none, some, List, [], ◌∷◌, ◌++◌, map, keep, length,
  Text, codes, contains, includes, ◌==◌, text_eq, nat_eq, if◌then◌else◌,
}
use wiremap.Blank.{trim}
use wiremap.Route.{is_truthy, or_else}
use wiremap.DockerTypes.{ContainerInfo, NetworkContainer, NetworkInfo}

pub data StateFilter : Type 0 where
  all running exited : StateFilter

abbrev has_state : StateFilter → Text → Bool
has_state StateFilter.all state = true
has_state StateFilter.running state = state == codes "running"
has_state StateFilter.exited state = state == codes "exited"

-- `c.names[0] || ''`.
abbrev pub first_name : ContainerInfo → Text
first_name c = elim c.names [ [] ↦ [] | name ∷ names ↦ name ]

abbrev without_slash : Text → Text
without_slash [] = []
without_slash (c ∷ s) = if c == b'/' then s else c ∷ s

unfoldable pub container_display_name : ContainerInfo → Text
container_display_name c = without_slash (first_name c)

unfoldable pub filtered :
    (Text → Text) → StateFilter → Text → List ContainerInfo → List ContainerInfo
filtered lower state search containers =
    let q = trim (lower search) in
    keep
      (λ (c : ContainerInfo).
        has_state state c.state
        && (not (is_truthy q) || contains q (lower (first_name c)) || contains q (lower c.image)))
      containers

-- `containerMap.get(id)`: the last container that was set for the id.
abbrev pub get_container : List ContainerInfo → Text → Option ContainerInfo
get_container [] id = none
get_container (c ∷ cs) id =
    let later = get_container cs id in
    elim later [ none ↦ if c.id == id then some c else none | some d ↦ some d ]

abbrev pub container_ids : List ContainerInfo → List Text
container_ids cs = map (λ (c : ContainerInfo). c.id) cs

-- `Object.keys(net.containers)`.
abbrev pub member_ids : List (Text × NetworkContainer) → List Text
member_ids ms = map (λ (m : Text × NetworkContainer). m.0) ms

-- The loop over the ids of a network's containers.
unfoldable pub net_containers : List ContainerInfo → List Text → List ContainerInfo
net_containers cs [] = []
net_containers cs (id ∷ ids) =
    let rest = net_containers cs ids in
    elim (get_container cs id) [ none ↦ rest | some c ↦ c ∷ rest ]

pub record NetworkGroup : Type 0 where
  pub id : Text
  pub name : Text
  pub driver : Text
  pub subnet : Text
  pub container_count : ℕ
  pub containers : List ContainerInfo

abbrev add_group : NetworkInfo → List ContainerInfo → List NetworkGroup → List NetworkGroup
add_group net [] groups = groups
add_group net (c ∷ cs) groups =
    record {
      id = net.id;
      name = net.name;
      driver = net.driver;
      subnet = or_else net.subnet [];
      container_count = length (c ∷ cs);
      containers = c ∷ cs;
    }
    ∷ groups

unfoldable pub groups : List ContainerInfo → List NetworkInfo → List NetworkGroup
unfolding net_containers
groups cs [] = []
groups cs (net ∷ nets) =
    add_group net (net_containers cs (member_ids net.containers)) (groups cs nets)

-- What the set of assigned ids holds at the end.
unfoldable pub assigned_ids : List ContainerInfo → List NetworkInfo → List Text
unfolding net_containers
assigned_ids cs [] = []
assigned_ids cs (net ∷ nets) =
    keep (λ id. includes id (container_ids cs)) (member_ids net.containers) ++ assigned_ids cs nets

unfoldable pub ungrouped : List ContainerInfo → List NetworkInfo → List ContainerInfo
unfolding assigned_ids
ungrouped cs nets = keep (λ (c : ContainerInfo). not (includes c.id (assigned_ids cs nets))) cs
