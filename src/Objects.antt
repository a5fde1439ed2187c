-- ===== src/Objects.antt =====
-- client/src/hooks/useKubeObjects.ts. A request that waits for its answer is an element of the
-- state, since several can wait and their answers come in any order.
pub mod Paging
pub mod Loading
pub mod Late
mod Tests
use wiremap.Base.{
  ℕ, zero, suc, ◌+◌, Bool, true, false, ◌&&◌, Option, none, some, List, [], ◌∷◌, ◌++◌, Text,
  get_elem?, ◌==◌, nat_eq, if◌then◌else◌,
}
use wiremap.KubeTypes.{KubeKind, KubeObject, KubeObjectList}

-- The arguments of the hook.
pub record Scope : Type 0 where
  pub cluster : Text
  pub kind : Option KubeKind
  pub namespace : Text

-- `scope` of the hook: the namespace that is asked for.
unfoldable pub asked_namespace : Scope → Text
asked_namespace c = elim c.kind [ none ↦ [] | some k ↦ if k.namespaced then c.namespace else [] ]

pub data Request : Type 0 where
  first : Scope → Request
  more : Scope → (token : Text) → Request

pub data Answer : Type 0 where
  page : KubeObjectList → Answer
  failed : (message : Text) → Answer

pub record KubeObjects : Type 0 where
  pub scope : Scope
  pub items : Option (List KubeObject)
  pub continue_token : Text
  pub error : Option Text
  pub loading_more : Bool
  pub extra_pages : ℕ
  pub requests : List Request

abbrev pub or_empty {ℓ} : {A : Type ℓ} → Option (List A) → List A
or_empty none = []
or_empty (some xs) = xs

abbrev pub send : Request → KubeObjects → KubeObjects
send r s = record s { requests = s.requests ++ (r ∷ []) }

unfoldable pub refresh : KubeObjects → KubeObjects
refresh s = elim s.scope.kind [
  | none ↦ s
  | some k ↦ if s.extra_pages == 0 then send (Request.first s.scope) s else s
]

abbrev pub ask_more : Text → KubeObjects → KubeObjects
ask_more [] s = s
ask_more (c ∷ t) s = send (Request.more s.scope (c ∷ t)) (record s { loading_more = true })

unfoldable pub load_more : KubeObjects → KubeObjects
load_more s = elim s.scope.kind [ none ↦ s | some k ↦ ask_more s.continue_token s ]

-- The two functions from their answer on.
abbrev pub answer_to : Request → Answer → KubeObjects → KubeObjects
answer_to (Request.first c) (Answer.page p) s = record s {
  items = some p.items;
  continue_token = or_empty p.continue;
  error = none;
}
answer_to (Request.first c) (Answer.failed message) s = record s { error = some message }
answer_to (Request.more c token) (Answer.page p) s = record s {
  extra_pages = suc s.extra_pages;
  items = some (or_empty s.items ++ p.items);
  continue_token = or_empty p.continue;
  loading_more = false;
}
answer_to (Request.more c token) (Answer.failed message) s = record s {
  error = some message;
  loading_more = false;
}

abbrev pub without : List Request → ℕ → List Request
without [] n = []
without (r ∷ rs) zero = rs
without (r ∷ rs) (suc n) = r ∷ without rs n

-- The answer of the `n`th request that waits.
unfoldable pub answer : ℕ → Answer → KubeObjects → KubeObjects
answer n a s = elim (get_elem? s.requests n) [
  | none ↦ s
  | some r ↦ answer_to r a (record s { requests = without s.requests n })
]

-- The effect, when the arguments have changed, and when the hook is mounted.
unfoldable pub change : Scope → KubeObjects → KubeObjects
unfolding refresh
change scope s =
    refresh
      (record s { scope = scope; extra_pages = 0; items = none; continue_token = []; error = none })

-- What can happen to the hook: a round of the interval, a call of `loadMore`, an answer, and other
-- arguments.
pub data Event : Type 0 where
  tick asks_more : Event
  answered : ℕ → Answer → Event
  changed : Scope → Event

unfoldable pub step : Event → KubeObjects → KubeObjects
unfolding refresh load_more answer change
step Event.tick s = refresh s
step Event.asks_more s = load_more s
step (Event.answered n a) s = answer n a s
step (Event.changed c) s = change c s

unfoldable pub run : List Event → KubeObjects → KubeObjects
unfolding step
run [] s = s
run (e ∷ es) s = run es (step e s)

unfoldable pub mounted : Scope → KubeObjects
unfolding change
mounted scope = change scope (record {
  scope = scope;
  items = none;
  continue_token = [];
  error = none;
  loading_more = false;
  extra_pages = 0;
  requests = [];
})

-- What the hook returns.
unfoldable pub shown_items : KubeObjects → List KubeObject
shown_items s = or_empty s.items

unfoldable pub has_more : KubeObjects → Bool
has_more s = elim s.continue_token [ [] ↦ false | c ∷ t ↦ true ]

unfoldable pub loading : KubeObjects → Bool
loading s = elim s.scope.kind [
  | none ↦ false
  | some k ↦ elim s.items [ none ↦ elim s.error [ none ↦ true | some m ↦ false ] | some xs ↦ false ]
]
