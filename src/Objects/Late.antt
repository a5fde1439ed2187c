-- ===== src/Objects/Late.antt =====
-- Answers of useKubeObjects.ts that come after another answer or after a change.
use wiremap.Base.{ℕ, ◌≡◌, refl, false, none, some, List, [], ◌∷◌, ◌++◌, Text}
use wiremap.KubeTypes.{KubeKind, KubeObject, KubeObjectList}
use wiremap.Objects.{Scope, Answer, KubeObjects, Event, run, shown_items}

module _ (cluster : Text) (kind : KubeKind) (namespace : Text) (items : List KubeObject) where
  abbrev scope : Scope
  scope = record { cluster = cluster; kind = some kind; namespace = namespace }

  -- A kind of which the first page is shown, with `c ∷ token` after it.
  abbrev pub showing : ℕ → Text → KubeObjects
  showing c token = record {
    scope = scope;
    items = some items;
    continue_token = c ∷ token;
    error = none;
    loading_more = false;
    extra_pages = 0;
    requests = [];
  }

  -- Let the first page of a kind be shown, and let a round of the interval ask for it again. If two
  -- calls of `loadMore` follow, and the answer to the interval's request comes after the first of
  -- them was answered and before the second is, then the second page is not among the shown
  -- objects, while the third is behind the first.
  pub late_refresh :
      (c d : ℕ) (token next : Text) (second third : KubeObjectList)
      → (first : KubeObjectList) → second.continue ≡ some (d ∷ next)
      → shown_items (
          run
            (Event.tick
              ∷ Event.asks_more
              ∷ Event.answered 1 (Answer.page second)
              ∷ Event.asks_more
              ∷ Event.answered 0 (Answer.page first)
              ∷ Event.answered 0 (Answer.page third)
              ∷ [])
            (showing c token))
        ≡ first.items ++ third.items
  unfolding run shown_items
  late_refresh c d token next second third first e = rw e

  -- Let the first page of a kind be shown. If another kind is chosen while a call of `loadMore`
  -- waits, then the objects of the former kind that answer it are shown behind those of the new
  -- kind, and the rounds of the interval, having found an extra page, ask for nothing any more.
  pub late_more :
      (c : ℕ) (token : Text) (other : KubeKind) (fresh former : KubeObjectList)
      → let late =
          run
            (Event.asks_more
              ∷ Event.changed
                  (record { cluster = cluster; kind = some other; namespace = namespace })
              ∷ Event.answered 1 (Answer.page fresh)
              ∷ Event.answered 0 (Answer.page former)
              ∷ [])
            (showing c token) in
        (shown_items late ≡ fresh.items ++ former.items) × (run (Event.tick ∷ []) late ≡ late)
  unfolding run shown_items
  late_more c token other fresh former = (refl, refl)
