-- ===== src/Loads/Own.antt =====
-- What a hook that cancels shows comes from requests for the present choice.
use wiremap.Base.{
  ℕ, zero, suc, ◌≡◌, refl, sym, ap, ◌∙◌, inl, inr, Bool, true, false, some, List, [], ◌∷◌, map,
  arith, All, All-append, get_elem?, Option-cases, not_none-some, eq_of_some, subst, if◌then◌else◌,
}
use wiremap.KubeTypes.{KubePod}
use wiremap.Loads.{
  Answer, Event, Hook, Loader, Request, ask_again, asked, cancel, change, drop_at, mounted, run,
  settle, step, take_answer,
}
use wiremap.Loads.Hooks.{PodRef, PodState, kube_pod}

-- A request that counts was made for the choice.
abbrev pub CountsFor : {K : Type 0} → K → Request K → Type 0
CountsFor k r = r.cancelled ≡ false → r.of ≡ k

module _ {K : Type 0} (k : K) where
  All-cancel : (rs : List (Request K)) → All (CountsFor k) (map cancel rs)
  All-cancel [] = tt
  All-cancel (r ∷ rs) = (λ e. absurd (ground (arith, e)), All-cancel rs)

  All-drop_at :
      (n : ℕ) (rs : List (Request K)) → All (CountsFor k) rs → All (CountsFor k) (drop_at rs n)
  All-drop_at n [] h = tt
  All-drop_at zero (r ∷ rs) h = h.1
  All-drop_at (suc n) (r ∷ rs) h = (h.0, All-drop_at n rs h.1)

  All-get :
      (n : ℕ) (rs : List (Request K)) (r : Request K)
      → All (CountsFor k) rs
      → get_elem? rs n ≡ some r
      → CountsFor k r
  All-get n [] r h e = absurd (not_none-some e)
  All-get zero (q ∷ rs) r h e = subst (CountsFor k) (eq_of_some e) h.0
  All-get (suc n) (q ∷ rs) r h e = All-get n rs r h.1 e

module _ {K S A : Type 0} (h : Hook K S A) (get : K → ℕ → Answer A) (P : K → S → Type 0)
    (cancelling : h.cancels ≡ true) (starts : (k : K) (s : S) → P k (h.restart k s))
    (settles : (k : K) (t : ℕ) (s : S) → P k s → P k (settle h (get k t) s)) where
  pub record IsOwn (l : Loader K S) : Type 0 where
    pub pending : All (CountsFor l.chosen) l.requests
    pub holds : P l.chosen l.shown

  asked-CountsFor : (k : K) → All (CountsFor k) (asked h k)
  asked-CountsFor k =
      elim (h.asks k)
        as (λ b. All (CountsFor k) (if b then record { of = k; cancelled = false } ∷ [] else [])) [
          | true ↦ (λ e. refl, tt)
          | false ↦ tt
        ]

  change-IsOwn : (k : K) (l : Loader K S) → IsOwn (change h k l)
  unfolding change
  change-IsOwn k l = record {
    pending =
        rw cancelling (All-append (CountsFor k) _ _ (All-cancel k l.requests) (asked-CountsFor k));
    holds = starts k l.shown;
  }

  take_answer-IsOwn :
      (r : Request K) (t : ℕ) (rest : List (Request K)) (l : Loader K S)
      → CountsFor l.chosen r
      → All (CountsFor l.chosen) rest
      → P l.chosen l.shown
      → IsOwn (take_answer h (some r) (λ k. get k t) rest l)
  take_answer-IsOwn r t rest l c a p = record { pending = a; holds = shown r.cancelled c }
    where
      shown :
          (b : Bool)
          → (b ≡ false → r.of ≡ l.chosen)
          → P l.chosen (if b then l.shown else settle h (get r.of t) l.shown)
      shown true c = p
      shown false c =
          subst (λ k. P l.chosen (settle h (get k t) l.shown)) (sym (c refl))
            (settles l.chosen t l.shown p)

  step-IsOwn : (e : Event K) (l : Loader K S) → IsOwn l → IsOwn (step h get e l)
  unfolding step
  step-IsOwn (Event.changed k) l o = change-IsOwn k l
  step-IsOwn Event.again l o = record {
    pending =
        unfold ask_again in
        All-append (CountsFor l.chosen) _ _ o.pending (asked-CountsFor l.chosen);
    holds = unfold ask_again in o.holds;
  }
  step-IsOwn (Event.answered n t) l o = elim (Option-cases (get_elem? l.requests n)) [
    | inl e ↦ rw e o
    | inr (r, e) ↦ rw e (
        take_answer-IsOwn r t (drop_at l.requests n) l (All-get l.chosen n l.requests r o.pending e)
          (All-drop_at l.chosen n l.requests o.pending) o.holds)
  ]

  pub run-IsOwn : (es : List (Event K)) (l : Loader K S) → IsOwn l → IsOwn (run h get es l)
  unfolding run
  run-IsOwn [] l o = o
  run-IsOwn (e ∷ es) l o = run-IsOwn es (step h get e l) (step-IsOwn e l o)

  pub mounted-IsOwn : (k : K) (s : S) → IsOwn (mounted h k s)
  unfolding mounted
  mounted-IsOwn k s = change-IsOwn k (record { chosen = k; shown = s; requests = [] })

-- What the hook of a pod may show for a choice: a pod that is shown is the one the server gave for
-- that choice, at some time.
abbrev ShowsOwn : (PodRef → ℕ → Answer KubePod) → PodRef → PodState → Type 0
ShowsOwn get k s = (p : KubePod) → s.pod ≡ some p → (t : ℕ) × (get k t ≡ Answer.arrived p)

settle-ShowsOwn :
    (get : PodRef → ℕ → Answer KubePod) (k : PodRef) (t : ℕ) (s : PodState)
    → ShowsOwn get k s
    → ShowsOwn get k (settle kube_pod (get k t) s)
settle-ShowsOwn get k t s h =
    elim (get k t) as (λ a. get k t ≡ a → ShowsOwn get k (settle kube_pod a s)) [
      | Answer.arrived a ↦ λ e. unfold kube_pod in λ p q. (t, e ∙ ap Answer.arrived (eq_of_some q))
      | Answer.failed m ↦ λ e. unfold kube_pod in h
    ]
      refl

-- Whatever is chosen and however late the answers come, the pod that useKubePod shows is one that the
-- server gave for the cluster, the namespace and the name that are chosen now.
pub kube_pod-run :
    (get : PodRef → ℕ → Answer KubePod) (es : List (Event PodRef)) (k : PodRef) (s : PodState)
    (p : KubePod)
    → (run kube_pod get es (mounted kube_pod k s)).shown.pod ≡ some p
    → (t : ℕ) × (get (run kube_pod get es (mounted kube_pod k s)).chosen t ≡ Answer.arrived p)
kube_pod-run get es k s p e =
    (run-IsOwn kube_pod get (ShowsOwn get) cancelling starts (settle-ShowsOwn get) es
        (mounted kube_pod k s)
        (mounted-IsOwn kube_pod get (ShowsOwn get) cancelling starts (settle-ShowsOwn get) k
          s)).holds
      p e
  where
    cancelling : kube_pod.cancels ≡ true
    cancelling = unfold kube_pod in refl

    starts : (k : PodRef) (s : PodState) → ShowsOwn get k (kube_pod.restart k s)
    starts k s = unfold kube_pod in λ p q. absurd (not_none-some q)
