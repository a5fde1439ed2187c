-- ===== src/Depth/Scan.antt =====
-- One pass over the edges.
use wiremap.Base.{
  includes, ℕ, suc, ◌+◌, ◌≡◌, subst, eq_of_some, ◌⊎◌, inl, inr, Bool, true, false, not, ◌&&◌, ◌||◌,
  none, some, List, [], ◌∷◌, ◌++◌, Text, arith, Bool-cases, Option-cases, same_text, same_text_iff,
  if_elim, ◌==◌, text_eq, eq_self,
}
use wiremap.KubeTypes.{KubeGraphEdge}
use wiremap.Depth.{Depths, get, has, depth_at, Progress, visit, scan}

abbrev pub has_edge : List KubeGraphEdge → Text → Text → Bool
has_edge [] u v = false
has_edge (e ∷ es) u v = (e.source == u && e.target == v) || has_edge es u v

pub includes-append :
    (x y : Text) (xs : List Text) → includes x (xs ++ (y ∷ [])) ≡ (includes x xs || y == x)
includes-append x y [] = ground arith
includes-append x y (z ∷ xs) = ground (arith, includes-append x y xs)

both_eq :
    (e : KubeGraphEdge) (u v : Text)
    → (e.source == u && e.target == v) ≡ true
    → (e.source ≡ u) × (e.target ≡ v)
both_eq e u v h = ground (arith, same_text_iff e.source u, same_text_iff e.target v)

-- A walk of `n` edges that begins at a root.
pub data Walk (es : List KubeGraphEdge) (rs : List Text) : Text → ℕ → Type 0 where
  start : {x : Text} → includes x rs ≡ true → Walk es rs x 0
  step : {u v : Text} {n : ℕ} → Walk es rs u n → has_edge es u v ≡ true → Walk es rs v (suc n)

pub is_none : (d : Depths) (x : Text) → has d x ≡ false → get d x ≡ none
is_none d x h = ground arith

next_depth : (d : Depths) (x : Text) (k : ℕ) → get d x ≡ some k → depth_at d x + 1 ≡ suc k
next_depth d x k h = ground arith

pub fires : (a b : Bool) → (a && not b) ≡ true → (a ≡ true) × (b ≡ false)
fires a b h = ground arith

-- A pass forgets no depth and changes none.
visit-grows :
    (frontier : List Text) (e : KubeGraphEdge) (p : Progress) (x : Text) (j : ℕ)
    → get p.depth x ≡ some j
    → get (visit frontier e p).depth x ≡ some j
unfolding visit
visit-grows frontier e p x j h = ground (arith, same_text_iff e.target x)

scan-grows :
    (frontier : List Text) (es : List KubeGraphEdge) (p : Progress) (x : Text) (j : ℕ)
    → get p.depth x ≡ some j
    → get (scan frontier es p).depth x ≡ some j
unfolding scan
scan-grows frontier [] p x j h = h
scan-grows frontier (e ∷ es) p x j h =
    scan-grows frontier es (visit frontier e p) x j (visit-grows frontier e p x j h)

visit-reaches :
    (frontier : List Text) (e : KubeGraphEdge) (p : Progress)
    → includes e.source frontier ≡ true
    → (i : ℕ) × (get (visit frontier e p).depth e.target ≡ some i)
unfolding visit
visit-reaches frontier e p h = elim (Option-cases (get p.depth e.target)) [
  | inl unknown ↦ (depth_at p.depth e.source + 1, ground (arith, eq_self e.target))
  | inr (i, known) ↦ (i, ground arith)
]

-- A pass finds every target of an edge from the frontier.
pub scan-reaches :
    (frontier : List Text) (es : List KubeGraphEdge) (p : Progress) (u v : Text)
    → includes u frontier ≡ true
    → has_edge es u v ≡ true
    → (i : ℕ) × (get (scan frontier es p).depth v ≡ some i)
unfolding scan
scan-reaches frontier [] p u v f h = absurd (cc h)
scan-reaches frontier (e ∷ es) p u v f h = elim (Bool-cases (e.source == u && e.target == v)) [
  | inr other ↦ scan-reaches frontier es (visit frontier e p) u v f (rw other at h)
  | inl same ↦
      let (su, tv) = both_eq e u v same in
      let (i, found) = visit-reaches frontier e p (rw su f) in
      (
        i,
        scan-grows frontier es (visit frontier e p) v i
            (subst (λ t. get (visit frontier e p).depth t ≡ some i) tv found),
      )
]

module _ (all : List KubeGraphEdge) (rs : List Text) (k : ℕ) (frontier : List Text)
    (before : Depths) (front : (x : Text) → includes x frontier ≡ true → get before x ≡ some k)
    (walked : (x : Text) (j : ℕ) → get before x ≡ some j → Walk all rs x j) where
  -- What holds during a pass: old depths stay, new ones are one more than the frontier's, and
  -- `next` lists exactly the new ones.
  pub record Mid (p : Progress) : Type 0 where
    pub keeps : (x : Text) (j : ℕ) → get before x ≡ some j → get p.depth x ≡ some j
    pub old_or_new :
        (x : Text) (j : ℕ)
        → get p.depth x ≡ some j
        → (get before x ≡ some j) ⊎ ((j ≡ suc k) × (includes x p.next ≡ true))
    pub listed : (x : Text) → includes x p.next ≡ true → get p.depth x ≡ some (suc k)
    pub sound : (x : Text) (j : ℕ) → get p.depth x ≡ some j → Walk all rs x j

  module _ (e : KubeGraphEdge) (p : Progress) (mid : Mid p)
      (from : includes e.source frontier ≡ true) (fresh_target : get p.depth e.target ≡ none)
      (listed_edge : has_edge all e.source e.target ≡ true) where
    abbrev added : Progress
    added = record { depth = (e.target, suc k) ∷ p.depth; next = p.next ++ (e.target ∷ []) }

    walk_to : (x : Text) (j : ℕ) → e.target ≡ x → some (suc k) ≡ some j → Walk all rs x j
    walk_to x j t d =
        subst (λ y. Walk all rs y j) t
          (subst (λ n. Walk all rs e.target n) (eq_of_some d)
            (Walk.step (walked e.source k (front e.source from)) listed_edge))

    sound-added : (x : Text) (j : ℕ) → get added.depth x ≡ some j → Walk all rs x j
    sound-added x j h = elim (Bool-cases (same_text e.target x)) [
      | inl same ↦ walk_to x j ((same_text_iff _ _).0 same) (rw same at h)
      | inr other ↦ mid.sound x j (rw other at h)
    ]

    Mid-added : Mid added
    Mid-added = record {
      keeps = λ x j h. ground (arith, same_text_iff e.target x, mid.keeps x j h);
      old_or_new = λ x j h.
          ground (
            arith,
            same_text_iff e.target x,
            mid.old_or_new x j,
            includes-append x e.target p.next,
          );
      listed = λ x h.
          ground (arith, same_text_iff e.target x, mid.listed x, includes-append x e.target p.next);
      sound = sound-added;
    }

  Mid-visit :
      (e : KubeGraphEdge) (p : Progress)
      → Mid p
      → has_edge all e.source e.target ≡ true
      → Mid (visit frontier e p)
  unfolding visit
  Mid-visit e p mid edge =
      if_elim Mid (includes e.source frontier && not (has p.depth e.target)) _ _
        (λ h.
          let (from, unknown) = fires _ _ h in
          rw (next_depth p.depth e.source k (mid.keeps e.source k (front e.source from)))
            (Mid-added e p mid from (is_none p.depth e.target unknown) edge))
        (λ h. mid)

  pub Mid-scan :
      (es : List KubeGraphEdge) (p : Progress)
      → Mid p
      → ((u v : Text) → has_edge es u v ≡ true → has_edge all u v ≡ true)
      → Mid (scan frontier es p)
  unfolding scan
  Mid-scan [] p mid within = mid
  Mid-scan (e ∷ es) p mid within =
      Mid-scan es (visit frontier e p)
        (Mid-visit e p mid
          (within e.source e.target (ground (arith, eq_self e.source, eq_self e.target))))
        (λ u v h. within u v (ground arith))
