-- ===== src/Sources/Tests.antt =====
-- A host and two clusters, and the theorems at them.
use wiremap.Base.{◌≡◌, refl, ◌⊎◌, true, false, Option, some, List, [], ◌∷◌, Text, codes, split}
use wiremap.KubeTypes.{KubeCluster}
use wiremap.DockerTypes.{HostInfo}
use wiremap.Route.{KubeRoute, Outcome, default_route, parse_kube_hash}
use wiremap.Sources.{Event, Source, SourceKind, mounted, run, step}
use wiremap.Sources.Counting.{AreDue}
use wiremap.Sources.Retrying.{HasEnded, IsLoading, run-ends}
use wiremap.Sources.Malformed.{run-unselected}

abbrev hosts : List HostInfo
hosts = record { name = codes "local"; connected = true } ∷ []

abbrev clusters : List KubeCluster
clusters =
    record { name = codes "dev"; connected = false }
    ∷ record { name = codes "prod"; connected = true }
    ∷ []

abbrev hash : Text
hash = codes "#/k8s/prod"

abbrev route : Option KubeRoute
route = some (default_route (codes "prod"))

abbrev local : Source
local = record {
  id = codes "docker:local";
  kind = SourceKind.docker;
  name = codes "local";
  connected = true;
}

-- The server refuses once, and the user chooses twice.
abbrev events : List Event
events =
    Event.refused
    ∷ Event.select (codes "docker:local")
    ∷ Event.timed_out
    ∷ Event.answered hosts clusters
    ∷ Event.select (codes "kubernetes:prod")
    ∷ []

events-AreDue : AreDue [] events mounted
unfolding mounted step
events-AreDue = (tt, (tt, (tt, (tt, (tt, tt)))))

abbrev automatic : List Event
automatic = Event.refused ∷ Event.timed_out ∷ Event.answered hosts clusters ∷ []

run-ends_example :
    IsLoading events (run [] events mounted) ⊎ HasEnded events (run [] events mounted)
run-ends_example = run-ends [] events events-AreDue

malformed : parse_kube_hash (codes "#/k8s/%zz") ≡ Outcome.uri_error
unfolding parse_kube_hash split
malformed = refl

run-unselected_example : (run (codes "#/k8s/%zz") automatic mounted).selected_id ≡ []
run-unselected_example = run-unselected (codes "#/k8s/%zz") automatic malformed (tt, (tt, (tt, tt)))
