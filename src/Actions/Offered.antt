-- ===== src/Actions/Offered.antt =====
-- Only what the server offers is run.
use wiremap.Base.{
  ℕ, zero, suc, ◌≡◌, refl, true, not, ◌&&◌, Option, none, some, List, [], ◌∷◌, All, All-append,
  arith, get_elem?, if_elim, if◌then◌else◌, nat_eq, text_eq,
}
use wiremap.KubeTypes.{KubeActions}
use wiremap.Api.{Outcome}
use wiremap.Api.Calls.{KubeTarget}
use wiremap.Actions.{
  Action, Actions, Reply, Running, answered, drop_at, finish, finish_at, is_node, mounted,
  resource_actions, start,
}
use wiremap.Actions.Controls.{
  Button, Controls, Event, action_of, can_apply, is_set, is_shown, opened, run, shows, step,
}

-- What the server offered for an action that runs.
abbrev pub IsOffered : KubeTarget → Running → Type 0
IsOffered t r = elim r.action [
  | Action.scaled n ↦ is_set r.options.replicas ≡ true
  | Action.restarted ↦ r.options.restart ≡ true
  | Action.triggered ↦ r.options.trigger ≡ true
  | Action.suspend_toggled ↦ is_set r.options.suspended ≡ true
  | Action.cordon_toggled ↦ (is_node t ≡ true) × (is_set r.options.unschedulable ≡ true)
  | Action.drained ↦ (is_node t ≡ true) × (is_set r.options.unschedulable ≡ true)
  | Action.removed ↦ r.options.delete ≡ true
]

pub finish-running :
    (r : Running) (o : Outcome (Option Reply)) (s : Actions) → (finish r o s).running ≡ s.running
unfolding finish
finish-running r (Outcome.returned v) s = refl
finish-running r (Outcome.thrown m) s = refl

module _ (t : KubeTarget) where
  node-offer :
      (o : KubeActions)
      → is_set (if is_node t then o.unschedulable else none) ≡ true
      → (is_node t ≡ true) × (is_set o.unschedulable ≡ true)
  node-offer o =
      if_elim (λ u. is_set u ≡ true → (is_node t ≡ true) × (is_set o.unschedulable ≡ true))
        (is_node t) _ _ (λ e h. (e, h)) (λ e h. absurd (ground (arith, h)))

  button-IsOffered :
      (b : Button) (o : KubeActions)
      → is_shown (resource_actions t o) b ≡ true
      → IsOffered t (record { action = action_of b; options = o })
  unfolding is_shown resource_actions
  button-IsOffered Button.restart_button o h = h
  button-IsOffered Button.trigger_button o h = h
  button-IsOffered Button.suspend_button o h = h
  button-IsOffered Button.cordon_button o h = node-offer o h
  button-IsOffered Button.drain_button o h = node-offer o h
  button-IsOffered Button.delete_button o h = h

  All-drop_at :
      (rs : List Running) (n : ℕ) → All (IsOffered t) rs → All (IsOffered t) (drop_at rs n)
  All-drop_at [] n h = tt
  All-drop_at (r ∷ rs) zero h = h.1
  All-drop_at (r ∷ rs) (suc n) h = (h.0, All-drop_at rs n h.1)

  answered-IsOffered :
      (n : ℕ) (o : Outcome (Option Reply)) (s : Actions)
      → All (IsOffered t) s.running
      → All (IsOffered t) (answered n o s).running
  unfolding answered
  answered-IsOffered n o s h =
      elim (get_elem? s.running n) as (λ g. All (IsOffered t) (finish_at g n o s).running) [
        | none ↦ h
        | some r ↦
            rw (finish-running r o (record s { running = drop_at s.running n }))
              (All-drop_at s.running n h)
      ]

  start-IsOffered :
      (r : Running) (s : Actions)
      → IsOffered t r
      → All (IsOffered t) s.running
      → All (IsOffered t) (start r s).running
  unfolding start
  start-IsOffered r s h k = All-append (IsOffered t) _ _ k (h, tt)

  can_apply-set : (n : ℕ) (o : Option ℕ) → can_apply n o ≡ true → is_set o ≡ true
  can_apply-set n none h = h
  can_apply-set n (some m) h = refl

  AllOffered : Controls → Type 0
  AllOffered c = All (IsOffered t) c.actions.running

  step-IsOffered : (e : Event) (c : Controls) → AllOffered c → AllOffered (step t e c)
  unfolding step AllOffered
  step-IsOffered (Event.asked b) c h =
      if_elim AllOffered (shows t c b && not (c.asking b) && not c.actions.busy) _ _ (λ e. h)
        (λ e. h)
  step-IsOffered (Event.confirmed b) c h =
      if_elim AllOffered (shows t c b && c.asking b) _ _
        (λ e. start-IsOffered _ c.actions (button-IsOffered b c.options (ground (arith, e))) h)
        (λ e. h)
  step-IsOffered (Event.refused b) c h =
      if_elim AllOffered (shows t c b && c.asking b) _ _ (λ e. h) (λ e. h)
  step-IsOffered (Event.scale_applied n) c h =
      if_elim AllOffered (can_apply n c.options.replicas && not c.actions.busy) _ _
        (λ e.
          start-IsOffered _ c.actions (can_apply-set n c.options.replicas (ground (arith, e))) h)
        (λ e. h)
  step-IsOffered (Event.refreshed o) c h = h
  step-IsOffered (Event.answer_came n o) c h = answered-IsOffered n o c.actions h

  run-AllOffered : (es : List Event) (c : Controls) → AllOffered c → AllOffered (run t es c)
  unfolding run
  run-AllOffered [] c h = h
  run-AllOffered (e ∷ es) c h = run-AllOffered es (step t e c) (step-IsOffered e c h)

-- Every action that runs was offered by the server for the object, as it was loaded at the click: a
-- node is cordoned or drained only where the object is a node, and so on. No condition on the events.
pub opened-IsOffered :
    (t : KubeTarget) (o : KubeActions) (es : List Event)
    → All (IsOffered t) (run t es (opened o)).actions.running
unfolding opened mounted
opened-IsOffered t o es = unfold AllOffered in run-AllOffered t es (opened o) tt
