-- ===== src/Actions/Controls.antt =====
-- The buttons that ask before they act, and what can be clicked when.
use wiremap.Base.{
  ℕ, Bool, true, false, not, ◌&&◌, Option, none, some, List, [], ◌∷◌, if◌then◌else◌, ◌==◌, nat_eq,
}
use wiremap.KubeTypes.{KubeActions}
use wiremap.Api.{Outcome}
use wiremap.Api.Calls.{KubeTarget}
use wiremap.Actions.{
  Action, Actions, Reply, ResourceActions, answered, mounted, resource_actions, start,
}

pub data Button : Type 0 where
  restart_button trigger_button suspend_button cordon_button drain_button delete_button : Button

abbrev code_of : Button → ℕ
code_of Button.restart_button = 0
code_of Button.trigger_button = 1
code_of Button.suspend_button = 2
code_of Button.cordon_button = 3
code_of Button.drain_button = 4
code_of Button.delete_button = 5

abbrev pub action_of : Button → Action
action_of Button.restart_button = Action.restarted
action_of Button.trigger_button = Action.triggered
action_of Button.suspend_button = Action.suspend_toggled
action_of Button.cordon_button = Action.cordon_toggled
action_of Button.drain_button = Action.drained
action_of Button.delete_button = Action.removed

-- `x !== undefined`.
abbrev pub is_set : {A : Type 0} → Option A → Bool
is_set none = false
is_set (some a) = true

unfoldable pub is_shown : ResourceActions → Button → Bool
is_shown v Button.restart_button = v.can_restart
is_shown v Button.trigger_button = v.can_trigger
is_shown v Button.suspend_button = is_set v.suspended
is_shown v Button.cordon_button = is_set v.unschedulable
is_shown v Button.drain_button = is_set v.unschedulable
is_shown v Button.delete_button = v.can_delete

pub record Controls : Type 0 where
  pub options : KubeActions
  pub asking : Button → Bool
  pub actions : Actions

pub data Event : Type 0 where
  -- The button, `Yes` and `No`.
  asked confirmed refused : Button → Event
  scale_applied : (replicas : ℕ) → Event
  -- The object is loaded again.
  refreshed : KubeActions → Event
  answer_came : ℕ → Outcome (Option Reply) → Event

abbrev set_asking : Button → Bool → (Button → Bool) → Button → Bool
set_asking b v asking c = if code_of b == code_of c then v else asking c

-- `canApply` for a value that is a count: it must not be the present one.
abbrev pub can_apply : ℕ → Option ℕ → Bool
can_apply n none = false
can_apply n (some m) = not (n == m)

module _ (t : KubeTarget) where
  abbrev pub shows : Controls → Button → Bool
  shows c b = is_shown (resource_actions t c.options) b

  abbrev begin : Action → Controls → Controls
  begin a c = record c { actions = start (record { action = a; options = c.options }) c.actions }

  -- Only a button that does not ask is disabled while an action runs: `Yes` is not.
  unfoldable pub step : Event → Controls → Controls
  unfolding answered is_shown resource_actions start
  step (Event.asked b) c =
      if shows c b && not (c.asking b) && not c.actions.busy
      then record c { asking = set_asking b true c.asking }
      else c
  step (Event.confirmed b) c =
      if shows c b && c.asking b
      then begin (action_of b) (record c { asking = set_asking b false c.asking })
      else c
  step (Event.refused b) c =
      if shows c b && c.asking b then record c { asking = set_asking b false c.asking } else c
  step (Event.scale_applied n) c =
      if can_apply n c.options.replicas && not c.actions.busy then begin (Action.scaled n) c else c
  step (Event.refreshed o) c = record c {
    options = o;
    asking = λ b. c.asking b && is_shown (resource_actions t o) b;
  }
  step (Event.answer_came n o) c = record c { actions = answered n o c.actions }

  unfoldable pub run : List Event → Controls → Controls
  unfolding step
  run [] c = c
  run (e ∷ es) c = run es (step e c)

unfoldable pub opened : KubeActions → Controls
unfolding mounted
opened o = record { options = o; asking = λ b. false; actions = mounted }
