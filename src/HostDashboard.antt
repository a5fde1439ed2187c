-- ===== src/HostDashboard.antt =====
-- The dashboard of a host, client/src/components/pages/dashboard/Dashboard.vm.ts (and where
-- Dashboard.tsx shows the panel): the selection and the side panel. The containers and networks are
-- those of Polling; `refreshes` counts how often both were asked for.
pub mod Selecting
mod Tests
use wiremap.Base.{
  ℕ, ◌+◌, Bool, true, false, not, Option, none, some, List, [], ◌∷◌, Text, if◌then◌else◌,
}
use wiremap.Polling.{Containers, Networks}

pub data ViewMode : Type 0 where
  canvas list : ViewMode

pub record HostDashboard : Type 0 where
  pub selected_container_id : Option Text
  pub view_mode : ViewMode
  pub panel_expanded : Bool
  pub refreshes : ℕ

unfoldable pub mounted : HostDashboard
mounted = record {
  selected_container_id = none;
  view_mode = ViewMode.canvas;
  panel_expanded = false;
  refreshes = 0;
}

-- `!id`, for an id that may be null.
abbrev pub is_selected : Option Text → Bool
is_selected none = false
is_selected (some []) = false
is_selected (some (c ∷ id)) = true

unfoldable pub handle_select_container : Option Text → HostDashboard → HostDashboard
handle_select_container id s =
    if is_selected id
    then record s { selected_container_id = id }
    else record s { selected_container_id = id; panel_expanded = false }

unfoldable pub handle_container_id_change : Text → HostDashboard → HostDashboard
handle_container_id_change id s = record s {
  selected_container_id = some id;
  refreshes = s.refreshes + 1;
}

unfoldable pub handle_close_panel : HostDashboard → HostDashboard
handle_close_panel s = record s { selected_container_id = none; panel_expanded = false }

unfoldable pub is_loading : Containers → Networks → Bool
is_loading c n = if c.loading then true else n.loading

pub data Event : Type 0 where
  select : Option Text → Event
  -- A saved environment makes a container with another id, which is not empty.
  replaced : (c : ℕ) (id : Text) → Event
  closed : Event
  toggled : Event
  view_chosen : ViewMode → Event

-- The panel and its buttons are there for a selected container only.
unfoldable pub step : Event → HostDashboard → HostDashboard
unfolding handle_select_container handle_container_id_change handle_close_panel
step (Event.select id) s = handle_select_container id s
step (Event.replaced c id) s =
    if is_selected s.selected_container_id then handle_container_id_change (c ∷ id) s else s
step Event.closed s = if is_selected s.selected_container_id then handle_close_panel s else s
step Event.toggled s =
    if is_selected s.selected_container_id
    then record s { panel_expanded = not s.panel_expanded }
    else s
step (Event.view_chosen m) s = record s { view_mode = m }

unfoldable pub run : List Event → HostDashboard → HostDashboard
unfolding step
run [] s = s
run (e ∷ es) s = run es (step e s)
