-- ===== src/Actions/Tests.antt =====
-- A deployment and a node, and the theorems at them.
use wiremap.Base.{
  ◌≡◌, refl, true, false, Option, none, some, List, [], ◌∷◌, codes, All, length, same_text,
}
use wiremap.KubeTypes.{KubeActions}
use wiremap.Api.{Outcome}
use wiremap.Api.Calls.{Body, KubeTarget, Method}
use wiremap.Actions.{Action, Reply, call_of, success}
use wiremap.Actions.Controls.{Button, Event, opened, run}
use wiremap.Actions.Offered.{IsOffered, opened-IsOffered}
use wiremap.Actions.Finishing.{answer_all, run-answered}

abbrev none_offered : KubeActions
none_offered = record {
  edit = false;
  delete = false;
  restart = false;
  trigger = false;
  replicas = some 2;
  suspended = none;
  unschedulable = some true;
}

abbrev node : KubeTarget
node = record {
  cluster = codes "prod";
  kind = codes "Node";
  group = [];
  name = codes "n1";
  namespace = none;
}

call_of-cordon : call_of node none_offered Action.cordon_toggled ≡ record {
  method = Method.post;
  url = codes "/k8s/clusters/prod/nodes/n1/cordon";
  body = some (Body.value false);
}
unfolding call_of
call_of-cordon = refl

success-drained :
    success none_offered Action.drained
      (some (record { job = none; refused = some (codes "a" ∷ codes "b" ∷ []) }))
    ≡ codes "Drained; not evicted: a; b"
unfolding success
success-drained = refl

abbrev clicks : List Event
clicks =
    Event.asked Button.drain_button
    ∷ Event.asked Button.restart_button
    ∷ Event.confirmed Button.restart_button
    ∷ Event.confirmed Button.drain_button
    ∷ []

opened-IsOffered_example :
    All (IsOffered node) (run node clicks (opened none_offered)).actions.running
opened-IsOffered_example = opened-IsOffered node none_offered clicks

abbrev failure : Outcome (Option Reply)
failure = Outcome.thrown (codes "forbidden")

clicks-length :
    length (failure ∷ []) ≡ length (run node clicks (opened none_offered)).actions.running
unfolding same_text run opened
clicks-length = refl

run-answered_example :
    let s = answer_all (failure ∷ []) (run node clicks (opened none_offered)).actions in
    (s.running ≡ []) × (s.busy ≡ false)
run-answered_example = run-answered node none_offered clicks (failure ∷ []) clicks-length
