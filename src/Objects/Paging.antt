-- ===== src/Objects/Paging.antt =====
-- The pages that useKubeObjects.ts shows when each request is answered before the next is sent.
use wiremap.Base.{
  subst, Bool-cases, nat_beq_iff, ℕ, zero, suc, ◌≡◌, ◌≢◌, refl, sym, ap, ◌⊎◌, inl, inr, true,
  Option, none, some, List, [], ◌∷◌, ◌++◌, Text, Option-cases, ◌==◌, nat_eq,
}
use wiremap.KubeTypes.{KubeObject, KubeObjectList}
use wiremap.Objects.{
  Scope, Request, Answer, KubeObjects, Event, send, or_empty, refresh, load_more, answer, answer_to,
  ask_more, change, step,
}

-- A round of the interval, or a call of `loadMore`, and the error of its request, if it fails.
pub data Turn : Type 0 where
  tick asks_more : Option Text → Turn

abbrev pub calmed : KubeObjects → KubeObjects
calmed s = record s { requests = [] }

pub calmed-eq : (s : KubeObjects) → s.requests ≡ [] → s ≡ calmed s
calmed-eq s e = ap (λ rs. record s { requests = rs }) e

-- What the server lists for a token, the empty one for the first page.
module _ (list : Text → KubeObjectList) where
  -- The token after the first `n + 1` pages, and the objects on them.
  unfoldable pub token_after : ℕ → Text
  token_after zero = or_empty (list []).continue
  token_after (suc n) = or_empty (list (token_after n)).continue

  unfoldable pub pages : ℕ → List KubeObject
  unfolding token_after
  pages zero = (list []).items
  pages (suc n) = pages n ++ (list (token_after n)).items

  abbrev pub token_of : Request → Text
  token_of (Request.first c) = []
  token_of (Request.more c token) = token

  -- A request fails with a message, or the server's page comes.
  abbrev pub reply : Option Text → Request → Answer
  reply none r = Answer.page (list (token_of r))
  reply (some message) r = Answer.failed message

  -- The request that waits, if one does, is answered.
  unfoldable pub serve : Option Text → KubeObjects → KubeObjects
  serve fails s = elim s.requests [ [] ↦ s | r ∷ rs ↦ step (Event.answered 0 (reply fails r)) s ]

  unfoldable pub turn : Turn → KubeObjects → KubeObjects
  unfolding serve
  turn (Turn.tick fails) s = serve fails (step Event.tick s)
  turn (Turn.asks_more fails) s = serve fails (step Event.asks_more s)

  unfoldable pub turns : List Turn → KubeObjects → KubeObjects
  unfolding turn
  turns [] s = s
  turns (t ∷ ts) s = turns ts (turn t s)

  -- No page has come yet, or the first `extra_pages + 1` pages are shown.
  pub record IsPaged (s : KubeObjects) : Type 0 where
    pub calm : s.requests ≡ []
    pub content :
        ((s.items ≡ none) × (s.extra_pages ≡ 0) × (s.continue_token ≡ []))
        ⊎ ((s.items ≡ some (pages s.extra_pages)) × (s.continue_token ≡ token_after s.extra_pages))

  refresh-cases :
      (s : KubeObjects)
      → (refresh s ≡ s) ⊎ ((s.extra_pages ≡ 0) × (refresh s ≡ send (Request.first s.scope) s))
  unfolding refresh
  refresh-cases s = elim (Option-cases s.scope.kind) [
    | inl e ↦ inl (rw e)
    | inr (k, e) ↦ rw e (elim (Bool-cases (s.extra_pages == 0)) [
      | inl h ↦ rw h (inr ((nat_beq_iff s.extra_pages 0).0 h, refl))
      | inr h ↦ rw h (inl refl)
    ])
  ]

  ask_more-cases :
      (token : Text) (s : KubeObjects)
      → (ask_more token s ≡ s)
        ⊎ ((token ≢ [])
            × (ask_more token s
                ≡ send (Request.more s.scope token) (record s { loading_more = true })))
  ask_more-cases [] s = inl refl
  ask_more-cases (c ∷ t) s = inr (λ e. cc, refl)

  load_more-cases :
      (s : KubeObjects)
      → (load_more s ≡ s)
        ⊎ ((s.continue_token ≢ [])
            × (load_more s
                ≡ send (Request.more s.scope s.continue_token) (record s { loading_more = true })))
  unfolding load_more
  load_more-cases s =
      elim s.scope.kind
        as (λ k.
          (elim k [ none ↦ s | some _ ↦ ask_more s.continue_token s ] ≡ s)
          ⊎ ((s.continue_token ≢ [])
              × (elim k [ none ↦ s | some _ ↦ ask_more s.continue_token s ]
                  ≡ send (Request.more s.scope s.continue_token)
                      (record s { loading_more = true })))) [
                        | none ↦ inl refl
                        | some k ↦ ask_more-cases s.continue_token s
                      ]

  pub serve-calm : (fails : Option Text) (s : KubeObjects) → s.requests ≡ [] → serve fails s ≡ s
  unfolding serve
  serve-calm fails s e = rw (calmed-eq s e) refl

  pub serve-send :
      (fails : Option Text) (r : Request) (s : KubeObjects)
      → serve fails (send r (calmed s)) ≡ answer_to r (reply fails r) (calmed s)
  unfolding serve step answer
  serve-send fails r s = refl

  answer_first-IsPaged :
      (fails : Option Text) (c : Scope) (s : KubeObjects)
      → s.extra_pages ≡ 0
      → IsPaged (calmed s)
      → IsPaged (answer_to (Request.first c) (reply fails (Request.first c)) (calmed s))
  unfolding pages token_after
  answer_first-IsPaged none c s e p = record { calm = refl; content = inr (rw e, rw e) }
  answer_first-IsPaged (some m) c s e p = record { calm = refl; content = p.content }

  answer_more-IsPaged :
      (fails : Option Text) (c : Scope) (s : KubeObjects)
      → s.continue_token ≢ []
      → IsPaged (calmed s)
      → IsPaged (
          answer_to
            (Request.more c s.continue_token)
            (reply fails (Request.more c s.continue_token))
            (calmed (record s { loading_more = true })))
  unfolding pages token_after
  answer_more-IsPaged none c s e p = elim p.content [
    | inl (i, x, t) ↦ absurd (e t)
    | inr (i, t) ↦ record { calm = refl; content = inr (rw (i, t), rw t) }
  ]
  answer_more-IsPaged (some m) c s e p = record { calm = refl; content = p.content }

  IsPaged-calmed : (s : KubeObjects) → IsPaged s → IsPaged (calmed s)
  IsPaged-calmed s p = subst IsPaged (calmed-eq s p.calm) p

  pub turn-IsPaged : (t : Turn) (s : KubeObjects) → IsPaged (calmed s) → IsPaged (turn t (calmed s))
  unfolding turn step
  turn-IsPaged (Turn.tick fails) s p = elim (refresh-cases (calmed s)) [
    | inl e ↦ rw (e, serve-calm fails (calmed s) refl) p
    | inr (z, e) ↦
        rw (e, serve-send fails (Request.first s.scope) s)
          (answer_first-IsPaged fails s.scope s z p)
  ]
  turn-IsPaged (Turn.asks_more fails) s p = elim (load_more-cases (calmed s)) [
    | inl e ↦ rw (e, serve-calm fails (calmed s) refl) p
    | inr (z, e) ↦ rw e (
        rw
          (serve-send fails (Request.more s.scope s.continue_token)
            (record s { loading_more = true }))
          (answer_more-IsPaged fails s.scope s z p))
  ]

  turns-IsPaged_from : (ts : List Turn) (s : KubeObjects) → IsPaged s → IsPaged (turns ts s)
  unfolding turns
  turns-IsPaged_from [] s p = p
  turns-IsPaged_from (t ∷ ts) s p = turns-IsPaged_from ts (turn t s) (
      subst (λ x. IsPaged (turn t x)) (sym (calmed-eq s p.calm))
        (turn-IsPaged t s (IsPaged-calmed s p)))

  abbrev cleared : Scope → KubeObjects → KubeObjects
  cleared scope s = record s {
    scope = scope;
    extra_pages = 0;
    items = none;
    continue_token = [];
    error = none;
  }

  fresh : (scope : Scope) (s : KubeObjects) → IsPaged (calmed (cleared scope s))
  fresh scope s = record { calm = refl; content = inl (refl, refl, refl) }

  serve-change :
      (scope : Scope) (fails : Option Text) (s : KubeObjects)
      → IsPaged (serve fails (change scope (calmed s)))
  unfolding change
  serve-change scope fails s =
      unfold turn step in turn-IsPaged (Turn.tick fails) (cleared scope s) (fresh scope s)

  -- From a hook without a request, let its arguments change, let the request that this sends be
  -- answered, and after it any number of rounds of the interval and calls of `loadMore`, each with
  -- the answer to its request, which may be a failure. If the server always lists the same pages,
  -- then either no page has come yet, or exactly the first `extra_pages + 1` pages are shown, in
  -- their order, with the token after them.
  pub turns-IsPaged :
      (scope : Scope) (fails : Option Text) (s : KubeObjects) (ts : List Turn)
      → s.requests ≡ []
      → IsPaged (turns ts (serve fails (change scope s)))
  turns-IsPaged scope fails s ts e = turns-IsPaged_from ts (serve fails (change scope s)) (
      subst (λ x. IsPaged (serve fails (change scope x))) (sym (calmed-eq s e))
        (serve-change scope fails s))
