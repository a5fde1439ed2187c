-- ===== src/Panels/Inspecting.antt =====
-- A container's panel: client/src/components/organisms/container_panel/ContainerPanel.vm.ts,
-- ports_volumes_view/PortsVolumesView.vm.ts and network_view/NetworkView.vm.ts.
use wiremap.Base.{
  ◌≡◌, refl, sym, ap, ◌∙◌, Bool, true, false, not, Option, none, some, List, [], ◌∷◌, ◌++◌, map,
  drop, take, length, Text, Lacks, codes, contains, starts_with, split, arith, ◌==◌, nat_eq,
  if◌then◌else◌, append-nil, inl, inr, ◌⊎◌, split-append, split-eq-singleton,
}
use wiremap.DockerTypes.{ContainerInspect, ContainerNetwork, HostBinding, MountInfo}
use wiremap.Route.{is_truthy, or_else}
use wiremap.Api.{host_query}

-- `replace(pattern, '')` for a pattern that is a text: the first occurrence goes.
unfoldable pub remove_first : Text → Text → Text
remove_first pattern [] = []
remove_first pattern (c ∷ s) =
    let rest = remove_first pattern s in
    if starts_with pattern (c ∷ s) then drop (length pattern) (c ∷ s) else c ∷ rest

pub record PortRow : Type 0 where
  pub container : Text
  pub host : Text
  pub protocol : Text

abbrev second : List Text → Text
second (_ ∷ p ∷ _) = p
second _ = []

unfoldable pub container_of : Text → Text
unfolding remove_first
container_of port = remove_first (codes "/udp") (remove_first (codes "/tcp") port)

unfoldable pub protocol_of : Text → Text
unfolding split
protocol_of port = if contains (codes "/") port then second (split b'/' port) else codes "tcp"

unfoldable pub port_row : Text → HostBinding → PortRow
unfolding container_of protocol_of
port_row port b = record {
  container = container_of port;
  host = (if is_truthy b.host_ip then b.host_ip else codes "0.0.0.0") ++ (codes ":" ++ b.host_port);
  protocol = protocol_of port;
}

abbrev bindings_of : Option (List HostBinding) → List HostBinding
bindings_of none = []
bindings_of (some bs) = bs

abbrev rows_of : List (Text × Option (List HostBinding)) → List PortRow
rows_of [] = []
rows_of ((port, bs) ∷ ps) = map (port_row port) (bindings_of bs) ++ rows_of ps

unfoldable pub ports : ContainerInspect → List PortRow
unfolding port_row
ports i = elim i.port_bindings [ none ↦ [] | some ps ↦ rows_of ps ]

pub record VolumeRow : Type 0 where
  pub type : Text
  pub name : Text
  pub source : Text
  pub destination : Text
  pub read_only : Bool

unfoldable pub volume_row : MountInfo → VolumeRow
volume_row m = record {
  type = m.type;
  name = or_else m.name (codes "-");
  source = m.source;
  destination = m.destination;
  read_only = not m.rw;
}

unfoldable pub volumes : ContainerInspect → List VolumeRow
unfolding volume_row
volumes i = map volume_row i.mounts

pub record NetworkRow : Type 0 where
  pub name : Text
  pub ip : Text
  pub gateway : Text
  pub mac : Text
  pub aliases : List Text

abbrev or_dash : Text → Text
or_dash t = if is_truthy t then t else codes "-"

abbrev aliases_of : Option (List Text) → List Text
aliases_of none = []
aliases_of (some ts) = ts

unfoldable pub network_row : Text × ContainerNetwork → NetworkRow
network_row (name, net) = record {
  name = name;
  ip = or_dash net.ip_address;
  gateway = or_dash net.gateway;
  mac = or_dash net.mac_address;
  aliases = aliases_of net.aliases;
}

unfoldable pub networks : ContainerInspect → List NetworkRow
unfolding network_row
networks i = map network_row i.networks

-- `replace(/^\//, '')`.
abbrev bare_name : Text → Text
bare_name [] = []
bare_name (c ∷ s) = if c == b'/' then s else c ∷ s

unfoldable pub container_name : Option ContainerInspect → Text → Text
container_name none id = take 12 id
container_name (some i) id = if is_truthy (bare_name i.name) then bare_name i.name else take 12 id

unfoldable pub container_exec_path : Text → Text → Text
unfolding host_query
container_exec_path host id = codes "/ws/exec/" ++ (id ++ host_query host)

remove_first-append :
    (pattern p s t : Text)
    → Lacks b'/' p
    → remove_first (b'/' ∷ pattern) s ≡ t
    → remove_first (b'/' ∷ pattern) (p ++ s) ≡ p ++ t
unfolding remove_first
remove_first-append pattern [] s t h e = e
remove_first-append pattern (c ∷ p) s t h e =
    let other : (b'/' == c) ≡ false = ground (arith, h.0) in
    rw (other, remove_first-append pattern p s t h.1 e) refl

bare : (p : Text) → Lacks b'/' p → remove_first (codes "/udp") p ≡ p
bare p h =
    ap (remove_first (codes "/udp")) (sym (append-nil p))
    ∙ remove_first-append (codes "udp") p [] [] h (unfold remove_first in refl)
    ∙ append-nil p

contains-slash : (p s : Text) → contains (codes "/") (p ++ (b'/' ∷ s)) ≡ true
contains-slash [] s = refl
contains-slash (c ∷ p) s = rw (contains-slash p s) (ground arith)

protocol_of-append :
    (p proto : Text) → Lacks b'/' p → Lacks b'/' proto → protocol_of (p ++ (b'/' ∷ proto)) ≡ proto
unfolding protocol_of
protocol_of-append p proto h k =
    rw (contains-slash p proto, split-append b'/' p proto h, split-eq-singleton b'/' proto k) refl

-- A port of a container, a number and tcp or udp behind a slash, is shown as the number and the
-- protocol.
pub container_of-protocol_of :
    (p proto : Text)
    → Lacks b'/' p
    → (proto ≡ codes "tcp") ⊎ (proto ≡ codes "udp")
    → (container_of (p ++ (b'/' ∷ proto)) ≡ p) × (protocol_of (p ++ (b'/' ∷ proto)) ≡ proto)
unfolding container_of
container_of-protocol_of p proto h (inl e) = (
  ap (λ t. remove_first (codes "/udp") (remove_first (codes "/tcp") (p ++ (b'/' ∷ t)))) e
      ∙ ap (remove_first (codes "/udp")) (
          remove_first-append (codes "tcp") p (codes "/tcp") [] h (unfold remove_first in refl)
          ∙ append-nil p)
      ∙ bare p h,
  rw e (protocol_of-append p (codes "tcp") h (ground arith)),
)
container_of-protocol_of p proto h (inr e) = (
  ap (λ t. remove_first (codes "/udp") (remove_first (codes "/tcp") (p ++ (b'/' ∷ t)))) e
      ∙ ap (remove_first (codes "/udp")) (
          remove_first-append (codes "tcp") p (codes "/udp") (codes "/udp") h
            (unfold remove_first in refl))
      ∙ remove_first-append (codes "udp") p (codes "/udp") [] h (unfold remove_first in refl)
      ∙ append-nil p,
  rw e (protocol_of-append p (codes "udp") h (ground arith)),
)
