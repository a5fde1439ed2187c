-- ===== src/Loads/Hooks.antt =====
-- The states of the hooks, and what each does at a change and at an answer.
use wiremap.Base.{ℕ, Bool, true, false, Option, none, some, List, [], ◌∷◌, Text, if◌then◌else◌}
use wiremap.KubeTypes.{KubeKind, KubePod, KubeResource}
use wiremap.DockerTypes.{ContainerInspect}
use wiremap.Loads.{Hook}

-- useKubePod.ts.
pub record PodRef : Type 0 where
  pub cluster : Text
  pub namespace : Text
  pub name : Text

pub record PodState : Type 0 where
  pub pod : Option KubePod
  pub error : Option Text

unfoldable pub kube_pod : Hook PodRef PodState KubePod
kube_pod = record {
  restart = λ k s. record { pod = none; error = none };
  asks = λ k. true;
  cancels = true;
  arrive = λ pod s. record s { pod = some pod };
  fail = λ message s. record s { error = some message };
}

-- useKubeResource.ts. `version` counts the calls of `refresh`.
pub record ResourceRef : Type 0 where
  pub cluster : Text
  pub kind : Text
  pub group : Text
  pub name : Text
  pub namespace : Option Text
  pub version : ℕ

pub record ResourceState : Type 0 where
  pub resource : Option KubeResource
  pub error : Option Text

unfoldable pub kube_resource : Hook ResourceRef ResourceState KubeResource
kube_resource = record {
  restart = λ k s. record s { error = none };
  asks = λ k. true;
  cancels = true;
  arrive = λ resource s. record s { resource = some resource };
  fail = λ message s. record s { error = some message };
}

unfoldable pub resource_loading : ResourceState → Bool
resource_loading s = elim s.resource [
  | none ↦ elim s.error [ none ↦ true | some m ↦ false ]
  | some r ↦ false
]

-- useKubeKinds.ts, for the name of a cluster.
pub record KindsState : Type 0 where
  pub kinds : List KubeKind
  pub error : Option Text
  pub loading : Bool

unfoldable pub kube_kinds : Hook Text KindsState (List KubeKind)
kube_kinds = record {
  restart = λ k s. record s { loading = true };
  asks = λ k. true;
  cancels = true;
  arrive = λ kinds s. record { kinds = kinds; error = none; loading = false };
  fail = λ message s. record s { error = some message; loading = false };
}

-- useKubeCounts.ts. The counts are a list of pairs of a key and a number.
pub record CountsRef : Type 0 where
  pub cluster : Text
  pub namespace : Text
  pub kinds : List Text

abbrev is_some_kind : List Text → Bool
is_some_kind [] = false
is_some_kind (k ∷ ks) = true

unfoldable pub kube_counts : Hook CountsRef (List (Text × ℕ)) (List (Text × ℕ))
kube_counts = record {
  restart = λ k s. s;
  asks = λ k. is_some_kind k.kinds;
  cancels = true;
  arrive = λ counts s. counts;
  fail = λ message s. [];
}

-- useContainerInspect.ts.
pub record ContainerRef : Type 0 where
  pub host : Text
  pub container_id : Option Text

pub record InspectState : Type 0 where
  pub inspect : Option ContainerInspect
  pub loading : Bool

abbrev has_id : Option Text → Bool
has_id none = false
has_id (some []) = false
has_id (some (c ∷ id)) = true

unfoldable pub container_inspect : Hook ContainerRef InspectState ContainerInspect
container_inspect = record {
  restart = λ k s.
      if has_id k.container_id then record s { loading = true } else record s { inspect = none };
  asks = λ k. has_id k.container_id;
  cancels = false;
  arrive = λ inspect s. record { inspect = some inspect; loading = false };
  fail = λ message s. record { inspect = none; loading = false };
}
