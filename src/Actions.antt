-- ===== src/Actions.antt =====
-- The controls that act on an object: client/src/hooks/useKubeActions.ts,
-- client/src/components/organisms/resource_actions/ResourceActions.vm.ts (and the `disabled` of its
-- controls in ResourceActions.tsx) and client/src/components/molecules/confirm_button. An action
-- whose request waits for its answer is an element of the state.
pub mod Controls
pub mod Offered
pub mod Finishing
mod Tests
use wiremap.Base.{
  ℕ, zero, suc, ◌+◌, Bool, true, false, not, ◌&&◌, Option, none, some, List, [], ◌∷◌, ◌++◌, Text,
  codes, get_elem?, if◌then◌else◌, ◌==◌, nat_eq, text_eq,
}
use wiremap.Format.{decimal}
use wiremap.Route.{is_truthy}
use wiremap.KubeTypes.{KubeActions}
use wiremap.Api.{Outcome}
use wiremap.Api.Calls.{Call, KubeTarget, cordon, drain, remove, restart, scale, suspend, trigger}

pub data Action : Type 0 where
  scaled : (replicas : ℕ) → Action
  restarted triggered suspend_toggled cordon_toggled drained removed : Action

-- What the server may answer: the fields that the client reads.
pub record Reply : Type 0 where
  pub job : Option Text
  pub refused : Option (List Text)

-- `!x` for a field that may be absent.
abbrev is_unset : Option Bool → Bool
is_unset none = true
is_unset (some b) = not b

unfoldable pub call_of : KubeTarget → KubeActions → Action → Call
unfolding cordon drain remove restart scale suspend trigger
call_of t o (Action.scaled n) = scale t n
call_of t o Action.restarted = restart t
call_of t o Action.triggered = trigger t
call_of t o Action.suspend_toggled = suspend t (is_unset o.suspended)
call_of t o Action.cordon_toggled = cordon t.cluster t.name (is_unset o.unschedulable)
call_of t o Action.drained = drain t.cluster t.name
call_of t o Action.removed = remove t

-- `r?.job` in a template.
abbrev job_text : Option Reply → Text
job_text none = codes "undefined"
job_text (some r) = elim r.job [ none ↦ codes "undefined" | some job ↦ job ]

-- `refused.join('; ')`.
abbrev join_refused : List Text → Text
join_refused [] = []
join_refused (t ∷ []) = t
join_refused (t ∷ u ∷ us) = t ++ (codes "; " ++ join_refused (u ∷ us))

abbrev drained_text : List Text → Text
drained_text [] = codes "Drained"
drained_text (t ∷ ts) = codes "Drained; not evicted: " ++ join_refused (t ∷ ts)

abbrev refused_of : Option Reply → List Text
refused_of none = []
refused_of (some r) = elim r.refused [ none ↦ [] | some ts ↦ ts ]

-- The message of a success.
unfoldable pub success : KubeActions → Action → Option Reply → Text
unfolding decimal
success o (Action.scaled n) r = codes "Scaled to " ++ decimal n
success o Action.restarted r = codes "Rollout restart started"
success o Action.triggered r = codes "Started job " ++ job_text r
success o Action.suspend_toggled r =
    if is_unset o.suspended then codes "Suspended" else codes "Resumed"
success o Action.cordon_toggled r =
    if is_unset o.unschedulable then codes "Cordoned" else codes "Uncordoned"
success o Action.drained r = drained_text (refused_of r)
success o Action.removed r = codes "Deleted"

pub record ResourceActions : Type 0 where
  pub replicas : Option ℕ
  pub can_restart : Bool
  pub can_trigger : Bool
  pub suspended : Option Bool
  pub unschedulable : Option Bool
  pub can_delete : Bool

abbrev pub is_node : KubeTarget → Bool
is_node t = t.kind == codes "Node" && not (is_truthy t.group)

unfoldable pub resource_actions : KubeTarget → KubeActions → ResourceActions
resource_actions t o = record {
  replicas = o.replicas;
  can_restart = o.restart;
  can_trigger = o.trigger;
  suspended = o.suspended;
  unschedulable = if is_node t then o.unschedulable else none;
  can_delete = o.delete;
}

-- The state of the hook: what runs, and how often `onDone` and `onDeleted` were called.
pub record Running : Type 0 where
  pub action : Action
  pub options : KubeActions

pub record Actions : Type 0 where
  pub busy : Bool
  pub message : Option Text
  pub error : Option Text
  pub running : List Running
  pub done_calls : ℕ
  pub deleted_calls : ℕ

unfoldable pub mounted : Actions
mounted = record {
  busy = false;
  message = none;
  error = none;
  running = [];
  done_calls = 0;
  deleted_calls = 0;
}

-- `run` up to its `await`.
unfoldable pub start : Running → Actions → Actions
start r s = record s { busy = true; error = none; message = none; running = s.running ++ (r ∷ []) }

abbrev is_removal : Action → Bool
is_removal Action.removed = true
is_removal _ = false

-- `run` behind its `await`, and the `then` of `remove`.
unfoldable pub finish : Running → Outcome (Option Reply) → Actions → Actions
unfolding success
finish r (Outcome.returned v) s = record s {
  busy = false;
  message = some (success r.options r.action v);
  done_calls = s.done_calls + 1;
  deleted_calls = if is_removal r.action then s.deleted_calls + 1 else s.deleted_calls;
}
finish r (Outcome.thrown m) s = record s { busy = false; error = some m }

abbrev pub drop_at : List Running → ℕ → List Running
drop_at [] n = []
drop_at (r ∷ rs) zero = rs
drop_at (r ∷ rs) (suc n) = r ∷ drop_at rs n

abbrev pub finish_at : Option Running → ℕ → Outcome (Option Reply) → Actions → Actions
finish_at none n o s = s
finish_at (some r) n o s = finish r o (record s { running = drop_at s.running n })

-- The answer to the `n`th action that runs.
unfoldable pub answered : ℕ → Outcome (Option Reply) → Actions → Actions
unfolding finish
answered n o s = finish_at (get_elem? s.running n) n o s
