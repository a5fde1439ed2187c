-- ===== src/Loads/Tests.antt =====
-- A cluster with one pod, a host with two containers, and the theorems at them.
use wiremap.Base.{ℕ, ◌≡◌, refl, true, false, none, some, List, [], ◌∷◌, Text, codes}
use wiremap.KubeTypes.{KubeNodeStatus, KubePod}
use wiremap.DockerTypes.{ContainerInspect}
use wiremap.Loads.{Answer, Event, mounted, run}
use wiremap.Loads.Hooks.{ContainerRef, PodRef, PodState, kube_pod}
use wiremap.Loads.Own.{kube_pod-run}

abbrev pod : Text → KubePod
pod name = record {
  name = name;
  namespace = codes "shop";
  node = codes "n1";
  phase = codes "Running";
  status = KubeNodeStatus.healthy;
  pod_ip = [];
  host_ip = [];
  start_time = none;
  labels = none;
  containers = [];
}

abbrev pod_ref : Text → PodRef
pod_ref name = record { cluster = codes "prod"; namespace = codes "shop"; name = name }

abbrev get_pod : PodRef → ℕ → Answer KubePod
get_pod k t = Answer.arrived (pod k.name)

abbrev no_pod : PodState
no_pod = record { pod = none; error = none }

-- Another pod is chosen before the answer for the first.
abbrev events : List (Event PodRef)
events = Event.changed (pod_ref (codes "api")) ∷ Event.answered 1 0 ∷ Event.answered 0 1 ∷ []

kube_pod-run_example :
    (t : ℕ) × (get_pod
        (run kube_pod get_pod events (mounted kube_pod (pod_ref (codes "web")) no_pod)).chosen
        t
      ≡ Answer.arrived (pod (codes "api")))
kube_pod-run_example =
    kube_pod-run get_pod events (pod_ref (codes "web")) no_pod (pod (codes "api"))
      (unfold run mounted kube_pod in refl)

abbrev inspect : Text → ContainerInspect
inspect id = record {
  id = id;
  name = codes "/web";
  state = record {
    running = true;
    paused = false;
    restarting = false;
    status = codes "running";
    started_at = [];
    finished_at = [];
    health = none;
  };
  image = codes "nginx";
  command = [];
  entrypoint = none;
  env = none;
  labels = [];
  restart_policy = codes "always";
  mounts = [];
  port_bindings = none;
  networks = [];
  created = [];
}

abbrev inspect_of : ContainerRef → ℕ → Answer ContainerInspect
inspect_of k t = elim k.container_id [
  | none ↦ Answer.failed []
  | some id ↦ Answer.arrived (inspect id)
]
