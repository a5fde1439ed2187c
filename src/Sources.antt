-- ===== src/Sources.antt =====
-- The hosts and clusters to choose from, client/src/hooks/useSources.ts and
-- client/src/components/molecules/source_select/SourceSelect.vm.ts. The one request or timer that is
-- under way is part of the state.
pub mod Choosing
pub mod Counting
pub mod Retrying
pub mod Malformed
mod Tests
use wiremap.Base.{
  ℕ, zero, suc, Bool, true, false, not, ◌&&◌, Option, none, some, List, [], ◌∷◌, ◌++◌, map, find,
  length, ltb, Text, codes, if◌then◌else◌, ◌==◌, nat_eq, text_eq,
}
use wiremap.KubeTypes.{KubeCluster}
use wiremap.DockerTypes.{HostInfo}
use wiremap.Route.{KubeRoute, Outcome, is_truthy, parse_kube_hash}

pub data SourceKind : Type 0 where
  docker kubernetes : SourceKind

pub record Source : Type 0 where
  pub id : Text
  pub kind : SourceKind
  pub name : Text
  pub connected : Bool

abbrev kind_word : SourceKind → Text
kind_word SourceKind.docker = codes "docker"
kind_word SourceKind.kubernetes = codes "kubernetes"

abbrev pub source_id : SourceKind → Text → Text
source_id kind name = kind_word kind ++ (codes ":" ++ name)

abbrev host_source : HostInfo → Source
host_source h = record {
  id = source_id SourceKind.docker h.name;
  kind = SourceKind.docker;
  name = h.name;
  connected = h.connected;
}

abbrev cluster_source : KubeCluster → Source
cluster_source c = record {
  id = source_id SourceKind.kubernetes c.name;
  kind = SourceKind.kubernetes;
  name = c.name;
  connected = c.connected;
}

unfoldable pub all_sources : List HostInfo → List KubeCluster → List Source
all_sources hosts clusters = map host_source hosts ++ map cluster_source clusters

-- `a || b` of sources.
abbrev pub or_source : Option Source → Option Source → Option Source
or_source none d = d
or_source (some s) d = some s

abbrev pub is_linked : Text → Source → Bool
is_linked cluster s = s.id == source_id SourceKind.kubernetes cluster && s.connected

abbrev pub linked : Option KubeRoute → List Source → Option Source
linked none sources = none
linked (some route) sources = find (is_linked route.cluster) sources

abbrev first : List Source → Option Source
first [] = none
first (s ∷ ss) = some s

abbrev pub id_of : Option Source → Text
id_of none = []
id_of (some s) = s.id

abbrev pub is_connected : Source → Bool
is_connected s = s.connected

-- `initialSource` once the hash is parsed.
unfoldable pub chosen : Option KubeRoute → List Source → Option Source
chosen route sources =
    or_source (linked route sources) (or_source (find is_connected sources) (first sources))

abbrev chosen_id : List Source → Outcome (Option KubeRoute) → Option Text
chosen_id sources Outcome.uri_error = none
chosen_id sources (Outcome.returns route) = some (id_of (chosen route sources))

-- none is the exception that parsing the hash throws.
unfoldable pub initial_source : Text → List Source → Option Text
unfolding chosen parse_kube_hash
initial_source hash sources = chosen_id sources (parse_kube_hash hash)

-- A request with the retries that are left, the timer before the next, or neither.
pub data Attempt : Type 0 where
  asking : (retries : ℕ) → Attempt
  waiting : (retries : ℕ) → Attempt
  ended : Attempt

pub record Sources : Type 0 where
  pub sources : List Source
  pub selected_id : Text
  pub loading : Bool
  pub attempt : Attempt

unfoldable pub mounted : Sources
mounted = record { sources = []; selected_id = []; loading = true; attempt = Attempt.asking 5 }

-- The `catch`.
abbrev pub caught : ℕ → Sources → Sources
caught zero s = record s { loading = false; attempt = Attempt.ended }
caught (suc n) s = record s { attempt = Attempt.waiting n }

abbrev pub selected : ℕ → Option Text → Sources → Sources
selected n none s = caught n s
selected n (some id) s = record s { selected_id = id; loading = false; attempt = Attempt.ended }

pub data Event : Type 0 where
  answered : (hosts : List HostInfo) (clusters : List KubeCluster) → Event
  refused : Event
  timed_out : Event
  select : (id : Text) → Event

-- The `then`, the `catch` and the timer, which do nothing unless it is their turn.
abbrev pub take_sources : Attempt → Text → List Source → Sources → Sources
take_sources (Attempt.asking n) hash all s =
    selected n (initial_source hash all) (record s { sources = all })
take_sources (Attempt.waiting n) hash all s = s
take_sources Attempt.ended hash all s = s

abbrev pub refuse : Attempt → Sources → Sources
refuse (Attempt.asking n) s = caught n s
refuse (Attempt.waiting n) s = s
refuse Attempt.ended s = s

abbrev pub time_out : Attempt → Sources → Sources
time_out (Attempt.waiting n) s = record s { attempt = Attempt.asking n }
time_out (Attempt.asking n) s = s
time_out Attempt.ended s = s

unfoldable pub step : Text → Event → Sources → Sources
unfolding all_sources initial_source
step hash (Event.answered hosts clusters) s =
    take_sources s.attempt hash (all_sources hosts clusters) s
step hash Event.refused s = refuse s.attempt s
step hash Event.timed_out s = time_out s.attempt s
step hash (Event.select id) s = record s { selected_id = id }

unfoldable pub run : Text → List Event → Sources → Sources
unfolding step
run hash [] s = s
run hash (e ∷ es) s = run hash es (step hash e s)

unfoldable pub selected_source : Sources → Option Source
selected_source s = find (λ x. x.id == s.selected_id) s.sources

abbrev kind_label : SourceKind → Text
kind_label SourceKind.docker = codes "Docker"
kind_label SourceKind.kubernetes = codes "Kubernetes"

pub record SelectOption : Type 0 where
  pub value : Text
  pub label : Text

abbrev pub select_option : Source → SelectOption
select_option s = record {
  value = s.id;
  label =
      kind_label s.kind
      ++ (codes " · " ++ (s.name ++ (if s.connected then [] else codes " (offline)")));
}

pub record SourceSelect : Type 0 where
  pub visible : Bool
  pub options : List SelectOption
  pub value : Text

unfoldable pub source_select : Sources → SourceSelect
source_select s = record {
  visible = ltb 1 (length s.sources);
  options = map select_option s.sources;
  value = s.selected_id;
}
