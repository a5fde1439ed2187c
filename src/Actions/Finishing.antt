-- ===== src/Actions/Finishing.antt =====
-- When the controls are free again.
use wiremap.Base.{
  ℕ, ◌+◌, ◌≡◌, ◌≢◌, refl, sym, ap, ◌∙◌, true, false, not, ◌&&◌, Option, none, some, List, [], ◌∷◌,
  ◌++◌, arith, get_elem?, length, if_elim, nat_eq, text_eq,
}
use wiremap.KubeTypes.{KubeActions}
use wiremap.Api.{Outcome}
use wiremap.Api.Calls.{KubeTarget}
use wiremap.Actions.{
  Action, Actions, Reply, Running, answered, drop_at, finish, finish_at, mounted, resource_actions,
  start,
}
use wiremap.Actions.Controls.{
  Button, Controls, Event, can_apply, is_shown, opened, run, shows, step,
}
use wiremap.Actions.Offered.{finish-running}

-- The controls are free where nothing runs.
abbrev IsFree : Actions → Type 0
IsFree s = s.running ≡ [] → s.busy ≡ false

append-not_nil : (rs : List Running) (r : Running) → rs ++ (r ∷ []) ≢ []
append-not_nil [] r e = ground arith
append-not_nil (q ∷ rs) r e = ground arith

finish-free : (r : Running) (o : Outcome (Option Reply)) (s : Actions) → (finish r o s).busy ≡ false
unfolding finish
finish-free r (Outcome.returned v) s = refl
finish-free r (Outcome.thrown m) s = refl

answered-IsFree :
    (n : ℕ) (o : Outcome (Option Reply)) (s : Actions) → IsFree s → IsFree (answered n o s)
unfolding answered
answered-IsFree n o s h = elim (get_elem? s.running n) as (λ g. IsFree (finish_at g n o s)) [
  | none ↦ h
  | some r ↦ λ e. finish-free r o (record s { running = drop_at s.running n })
]

start-IsFree : (r : Running) (s : Actions) → IsFree (start r s)
unfolding start
start-IsFree r s e = absurd (append-not_nil s.running r e)

module _ (t : KubeTarget) where
  step-IsFree : (e : Event) (c : Controls) → IsFree c.actions → IsFree (step t e c).actions
  unfolding step
  step-IsFree (Event.asked b) c h =
      if_elim (λ (d : Controls). IsFree d.actions)
        (shows t c b && not (c.asking b) && not c.actions.busy) _ _ (λ e. h) (λ e. h)
  step-IsFree (Event.confirmed b) c h =
      if_elim (λ (d : Controls). IsFree d.actions) (shows t c b && c.asking b) _ _
        (λ e. start-IsFree _ c.actions) (λ e. h)
  step-IsFree (Event.refused b) c h =
      if_elim (λ (d : Controls). IsFree d.actions) (shows t c b && c.asking b) _ _ (λ e. h) (λ e. h)
  step-IsFree (Event.scale_applied n) c h =
      if_elim (λ (d : Controls). IsFree d.actions)
        (can_apply n c.options.replicas && not c.actions.busy) _ _ (λ e. start-IsFree _ c.actions)
        (λ e. h)
  step-IsFree (Event.refreshed o) c h = h
  step-IsFree (Event.answer_came n o) c h = answered-IsFree n o c.actions h

  run-IsFree : (es : List Event) (c : Controls) → IsFree c.actions → IsFree (run t es c).actions
  unfolding run
  run-IsFree [] c h = h
  run-IsFree (e ∷ es) c h = run-IsFree es (step t e c) (step-IsFree e c h)

-- The first action that runs is answered, until the outcomes are used up.
abbrev pub answer_all : List (Outcome (Option Reply)) → Actions → Actions
answer_all [] s = s
answer_all (o ∷ os) s = answer_all os (answered 0 o s)

finish_at-running :
    (o : Outcome (Option Reply)) (s : Actions) (rs : List Running)
    → (finish_at (get_elem? rs 0) 0 o (record s { running = rs })).running ≡ drop_at rs 0
finish_at-running o s [] = refl
finish_at-running o s (r ∷ rs) = finish-running r o (record s { running = rs })

answered-running :
    (o : Outcome (Option Reply)) (s : Actions) → (answered 0 o s).running ≡ drop_at s.running 0
unfolding answered
answered-running o s = finish_at-running o s s.running

length-drop_at : (n : ℕ) (rs : List Running) → n + 1 ≡ length rs → n ≡ length (drop_at rs 0)
length-drop_at n [] e = absurd (omega (arith, e))
length-drop_at n (r ∷ rs) e = omega (arith, e)

length-zero : (rs : List Running) → 0 ≡ length rs → rs ≡ []
length-zero [] e = refl
length-zero (r ∷ rs) e = absurd (omega (arith, e))

answer_all-free :
    (os : List (Outcome (Option Reply))) (s : Actions)
    → IsFree s
    → length os ≡ length s.running
    → ((answer_all os s).running ≡ []) × ((answer_all os s).busy ≡ false)
answer_all-free [] s h e = let none_left = length-zero s.running e in (none_left, h none_left)
answer_all-free (o ∷ os) s h e = answer_all-free os (answered 0 o s) (answered-IsFree 0 o s h) (
    length-drop_at (length os) s.running (omega (arith, e))
    ∙ sym (ap length (answered-running o s)))

-- Whatever was clicked before, once every action that runs has its answer, good or bad, nothing runs
-- and the buttons are enabled again.
pub run-answered :
    (t : KubeTarget) (o : KubeActions) (es : List Event) (os : List (Outcome (Option Reply)))
    → length os ≡ length (run t es (opened o)).actions.running
    → let s = answer_all os (run t es (opened o)).actions in (s.running ≡ []) × (s.busy ≡ false)
unfolding opened mounted
run-answered t o es os e =
    answer_all-free os (run t es (opened o)).actions (run-IsFree t es (opened o) (λ q. refl)) e

-- An object that can be restarted and deleted.
abbrev pub both : KubeActions → KubeActions
both o = record o { restart = true; delete = true }

-- Let an object be one that can be restarted and deleted, whatever else it offers. If both buttons
-- ask and both are confirmed, then two actions run at once, and the answer to the first enables the
-- buttons while the second still runs.
pub two_run :
    (t : KubeTarget) (o : KubeActions) (v : Outcome (Option Reply))
    → let s =
        (run t
          (Event.asked Button.restart_button
            ∷ Event.asked Button.delete_button
            ∷ Event.confirmed Button.restart_button
            ∷ Event.confirmed Button.delete_button
            ∷ Event.answer_came 0 v
            ∷ [])
          (opened (both o))).actions in
      (s.busy ≡ false) × (s.running ≡ record { action = Action.removed; options = both o } ∷ [])
unfolding run is_shown resource_actions opened mounted start answered finish
two_run t o (Outcome.returned v) = (refl, refl)
two_run t o (Outcome.thrown m) = (refl, refl)
