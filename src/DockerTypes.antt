-- ===== src/DockerTypes.antt =====
-- client/src/types/docker.ts, the containers and the networks. A `Record<string, V>` is a list of
-- pairs. An optional field is an `Option`.
use wiremap.Base.{ℕ, Bool, Option, List, Text}

pub record ContainerNetwork : Type 0 where
  pub ip_address : Text
  pub gateway : Text
  pub mac_address : Text
  pub network_id : Text
  pub aliases : Option (List Text)

pub record PortMapping : Type 0 where
  pub ip : Option Text
  pub private_port : ℕ
  pub public_port : Option ℕ
  pub type : Text

pub record ContainerInfo : Type 0 where
  pub id : Text
  pub names : List Text
  pub image : Text
  pub state : Text
  pub status : Text
  pub created : ℕ
  pub ports : List PortMapping
  pub labels : List (Text × Text)
  pub networks : List (Text × ContainerNetwork)

pub record NetworkContainer : Type 0 where
  pub name : Text
  pub ipv4_address : Text
  pub mac_address : Text

pub record NetworkInfo : Type 0 where
  pub id : Text
  pub name : Text
  pub driver : Text
  pub scope : Text
  pub subnet : Option Text
  pub gateway : Option Text
  pub containers : List (Text × NetworkContainer)

pub record HostInfo : Type 0 where
  pub name : Text
  pub connected : Bool

pub record ContainerState : Type 0 where
  pub status : Text
  pub running : Bool
  pub paused : Bool
  pub restarting : Bool
  pub started_at : Text
  pub finished_at : Text
  pub health : Option Text

pub record HostBinding : Type 0 where
  pub host_ip : Text
  pub host_port : Text

pub record MountInfo : Type 0 where
  pub type : Text
  pub name : Option Text
  pub source : Text
  pub destination : Text
  pub mode : Text
  pub rw : Bool

pub record ContainerInspect : Type 0 where
  pub id : Text
  pub name : Text
  pub state : ContainerState
  pub image : Text
  pub command : Text
  pub entrypoint : Option (List Text)
  pub env : Option (List Text)
  pub labels : List (Text × Text)
  pub restart_policy : Text
  pub mounts : List MountInfo
  pub port_bindings : Option (List (Text × Option (List HostBinding)))
  pub networks : List (Text × ContainerNetwork)
  pub created : Text
