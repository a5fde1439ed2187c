-- ===== src/Objects/Loading.antt =====
-- How far calls of `loadMore` of useKubeObjects.ts get.
use wiremap.Base.{
  ℕ, zero, suc, ◌+◌, ◌<◌, ◌≡◌, ◌≢◌, refl, sym, ap, true, false, none, some, List, [], ◌∷◌, arith,
  subst,
}
use wiremap.KubeTypes.{KubeObjectList}
use wiremap.Base.{Text}
use wiremap.Objects.{KubeObjects, Request, send, load_more, ask_more, step, shown_items, has_more}
use wiremap.Objects.Paging.{token_after, pages, Turn, turn, turns, calmed, calmed-eq, serve-send}

module _ (list : Text → KubeObjectList) where
  -- The first `n + 1` pages of a kind are shown, and no request waits.
  pub record IsShowing (n : ℕ) (s : KubeObjects) : Type 0 where
    pub calm : s.requests ≡ []
    pub chosen : s.scope.kind ≢ none
    pub extra : s.extra_pages ≡ n
    pub items : s.items ≡ some (pages list n)
    pub token : s.continue_token ≡ token_after list n

  -- `n` calls of `loadMore`, each answered with its page.
  abbrev pub load_pages : ℕ → List Turn
  load_pages zero = []
  load_pages (suc n) = Turn.asks_more none ∷ load_pages n

  load_more-sends :
      (s : KubeObjects)
      → s.scope.kind ≢ none
      → s.continue_token ≢ []
      → load_more s
        ≡ send (Request.more s.scope s.continue_token) (record s { loading_more = true })
  unfolding load_more
  load_more-sends s k t =
      elim s.scope.kind
          as (λ o.
            o ≢ none
            → elim o [ none ↦ s | some _ ↦ ask_more s.continue_token s ]
              ≡ send (Request.more s.scope s.continue_token) (record s { loading_more = true })) [
                | none ↦ λ n. absurd (n refl)
                | some _ ↦ λ _. asked s.continue_token t
              ]
        k
    where
      asked :
          (token : Text)
          → token ≢ []
          → ask_more token s ≡ send (Request.more s.scope token) (record s { loading_more = true })
      asked [] n = absurd (n refl)
      asked (c ∷ token) n = refl

  turn-IsShowing :
      (n : ℕ) (s : KubeObjects)
      → token_after list n ≢ []
      → IsShowing n (calmed s)
      → IsShowing (suc n) (turn list (Turn.asks_more none) (calmed s))
  unfolding turn step pages token_after
  turn-IsShowing n s t p =
      rw (load_more-sends (calmed s) p.chosen (subst (λ x. x ≢ []) (sym p.token) t)) (
        rw
          (serve-send list none (Request.more s.scope s.continue_token)
            (record s { loading_more = true }))
          (record {
            calm = refl;
            chosen = p.chosen;
            extra = ap suc p.extra;
            items = rw (p.items, p.token);
            token = rw p.token;
          }))

  turns-IsShowing :
      (m n : ℕ) (s : KubeObjects)
      → ((j : ℕ) → j < m + n → token_after list j ≢ [])
      → IsShowing n s
      → IsShowing (m + n) (turns list (load_pages m) s)
  unfolding turns
  turns-IsShowing zero n s t p = subst (λ k. IsShowing k s) (omega arith) p
  turns-IsShowing (suc m) n s t p =
      subst (λ k. IsShowing k (turns list (load_pages m) (turn list (Turn.asks_more none) s)))
        (omega arith)
        (turns-IsShowing m (suc n) (turn list (Turn.asks_more none) s)
          (λ j h. t j (omega (arith, h)))
          (subst (λ x. IsShowing (suc n) (turn list (Turn.asks_more none) x))
            (sym (calmed-eq s p.calm))
            (turn-IsShowing n s (t n (omega arith)) (subst (IsShowing n) (calmed-eq s p.calm) p))))

  -- Let the first page of a kind be shown. If the server's pages end after `n` more, so that the token
  -- after these is the first that is empty, then `n` calls of `loadMore`, each answered, show all of
  -- them, and no more is offered.
  pub load_all :
      (n : ℕ) (s : KubeObjects)
      → IsShowing 0 s
      → ((j : ℕ) → j < n → token_after list j ≢ [])
      → token_after list n ≡ []
      → (shown_items (turns list (load_pages n) s) ≡ pages list n)
        × (has_more (turns list (load_pages n) s) ≡ false)
  unfolding shown_items has_more
  load_all n s p t e =
      let all : IsShowing n (turns list (load_pages n) s) =
        subst (λ k. IsShowing k (turns list (load_pages n) s)) (omega arith)
          (turns-IsShowing n 0 s (λ j h. t j (omega (arith, h))) p) in
      (rw all.items, rw (all.token, e))
