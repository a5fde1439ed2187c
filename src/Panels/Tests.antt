-- ===== src/Panels/Tests.antt =====
-- A pod with an init container, and the theorems at it.
use wiremap.Base.{◌≡◌, refl, true, false, none, some, List, [], ◌∷◌, Text, codes, same_text}
use wiremap.KubeTypes.{KubeContainer}
use wiremap.Panels.{exec_path, opened_container}
use wiremap.Panels.Inspecting.{port_row}

abbrev container : Text → KubeContainer
container name = record {
  name = name;
  image = [];
  ready = true;
  restart_count = 0;
  state = codes "running";
  reason = none;
  init = false;
}

abbrev setup : KubeContainer
setup = record (container (codes "setup")) { init = true }

abbrev containers : List KubeContainer
containers = setup ∷ container (codes "web") ∷ []

opens_app : opened_container none containers ≡ some (container (codes "web"))
unfolding opened_container
opens_app = refl

exec_path_test :
    exec_path (record {
      cluster = codes "prod";
      namespace = codes "shop";
      pod = codes "web/1";
      container = codes "a b";
    })
    ≡ codes "/ws/k8s/exec/prod/shop/web%2F1?container=a%20b"
unfolding exec_path
exec_path_test = refl

sctp_row :
    port_row (codes "80/sctp") (record { host_ip = []; host_port = codes "8080" })
    ≡ record { container = codes "80/sctp"; host = codes "0.0.0.0:8080"; protocol = codes "sctp" }
unfolding port_row same_text
sctp_row = refl
