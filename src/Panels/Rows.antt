-- ===== src/Panels/Rows.antt =====
-- The rows of client/src/components/organisms/kube_object_list/KubeObjectList.vm.ts and
-- kube_events_view/KubeEventsView.vm.ts.
use wiremap.Base.{
  ℕ, Bool, true, false, Option, none, some, List, [], ◌∷◌, ◌++◌, map, keep, Text, codes, ◌==◌,
  text_eq, if◌then◌else◌,
}
use wiremap.KubeTypes.{KubeEvent, KubeGraphNode, KubeNodeStatus}
use wiremap.Route.{is_truthy, or_else}
use wiremap.Format.{format_age}

abbrev pub status_dot : KubeNodeStatus → Text
status_dot KubeNodeStatus.healthy = codes "running"
status_dot KubeNodeStatus.error = codes "exited"
status_dot KubeNodeStatus.warning = codes "other"
status_dot KubeNodeStatus.idle = codes "idle"

pub record ObjectRow : Type 0 where
  pub node : KubeGraphNode
  pub dot : Text
  pub active : Bool
  pub subtitle : Text
  -- What a click selects.
  pub toggle : Option KubeGraphNode

abbrev is_selected : Option Text → KubeGraphNode → Bool
is_selected none n = false
is_selected (some id) n = n.id == id

-- `details?.Age`.
abbrev age_in : List (Text × Text) → Text
age_in [] = []
age_in ((key, value) ∷ ds) = if key == codes "Age" then value else age_in ds

abbrev age_of : Option (List (Text × Text)) → Text
age_of none = []
age_of (some ds) = age_in ds

abbrev join_dots : List Text → Text
join_dots [] = []
join_dots (t ∷ []) = t
join_dots (t ∷ u ∷ us) = t ++ (codes " · " ++ join_dots (u ∷ us))

unfoldable pub subtitle_of : KubeGraphNode → Text
subtitle_of n =
    join_dots (keep is_truthy (or_else n.namespace [] ∷ n.summary ∷ age_of n.details ∷ []))

unfoldable pub object_row : Option Text → KubeGraphNode → ObjectRow
unfolding subtitle_of
object_row selected n = record {
  node = n;
  dot = status_dot n.status;
  active = is_selected selected n;
  subtitle = subtitle_of n;
  toggle = if is_selected selected n then none else some n;
}

unfoldable pub object_rows : Option Text → List KubeGraphNode → List ObjectRow
unfolding object_row
object_rows selected nodes = map (object_row selected) nodes

pub record Column : Type 0 where
  pub key : Text
  pub label : Text

abbrev column : Text → Text → Column
column key label = record { key = key; label = label }

abbrev pub event_columns : List Column
event_columns =
    column (codes "type") (codes "Type")
    ∷ column (codes "reason") (codes "Reason")
    ∷ column (codes "message") (codes "Message")
    ∷ column (codes "count") (codes "Count")
    ∷ column (codes "lastSeen") (codes "Last seen")
    ∷ []

pub record EventRow : Type 0 where
  pub event : KubeEvent
  pub age : Text

pub record EventsView : Type 0 where
  pub events : List EventRow
  pub loading : Bool
  pub error : Option Text

-- `time` is the instant of a timestamp, in milliseconds.
abbrev event_row : (Text → ℕ) → ℕ → KubeEvent → EventRow
event_row time now e = record { event = e; age = format_age now (time e.last_seen) ++ codes " ago" }

abbrev is_waiting : Option (List KubeEvent) → Option Text → Bool
is_waiting none none = true
is_waiting _ _ = false

abbrev rows_of : (Text → ℕ) → ℕ → Option (List KubeEvent) → List EventRow
rows_of time now none = []
rows_of time now (some es) = map (event_row time now) es

unfoldable pub events_view : (Text → ℕ) → ℕ → Option (List KubeEvent) → Option Text → EventsView
unfolding format_age
events_view time now events error = record {
  events = rows_of time now events;
  loading = is_waiting events error;
  error = error;
}
