-- ===== src/Depth/Shortest.antt =====
-- The depth of a node is the length of a shortest walk to it from a root.
use wiremap.Base.{
  includes, ℕ, zero, suc, ◌≤◌, ◌<◌, ◌≡◌, sym, ap, subst, ◌∙◌, inl, inr, true, some, List, [], ◌∷◌,
  Text, length, arith, text_eq, eq_of_some,
}
use native.Mathlib.Decide.{dec_lt}
use wiremap.KubeTypes.{KubeGraph, KubeGraphEdge}
use wiremap.Depth.Levels.{ownership_depth_total}
use wiremap.Depth.{Depths, get, Progress, scan, roots, levels, at_zero, ownership_depth}
use wiremap.Depth.Scan.{has_edge, Walk, Mid, Mid-scan, scan-reaches}
use wiremap.Depth.Tops.{Descent, Descent-Walk, Walk-Descent}

module _ (all : List KubeGraphEdge) (rs : List Text) where
  -- Before the round for depth `k`: the frontier is exactly the nodes of depth `k`, no depth is
  -- larger, every edge from a smaller depth has been followed, and every depth has a walk.
  record Round (k : ℕ) (frontier : List Text) (d : Depths) : Type 0 where
    front : (x : Text) → includes x frontier ≡ true → get d x ≡ some k
    on_front : (x : Text) → get d x ≡ some k → includes x frontier ≡ true
    bounded : (x : Text) (j : ℕ) → get d x ≡ some j → j ≤ k
    closed :
        (u v : Text) (j : ℕ)
        → get d u ≡ some j
        → j < k
        → has_edge all u v ≡ true
        → (i : ℕ) × (get d v ≡ some i) × (i ≤ suc j)
    sound : (x : Text) (j : ℕ) → get d x ≡ some j → Walk all rs x j
    rooted : (x : Text) → includes x rs ≡ true → get d x ≡ some 0

  module _ (k : ℕ) (frontier : List Text) (d : Depths) (round : Round k frontier d) where
    abbrev begun : Progress
    begun = record { depth = d; next = [] }

    abbrev ended : Progress
    ended = scan frontier all begun

    Mid-end : Mid all rs k frontier d round.front round.sound ended
    Mid-end =
        Mid-scan all rs k frontier d round.front round.sound all begun
          (record {
            keeps = λ x j h. h;
            old_or_new = λ x j h. inl h;
            listed = λ x h. absurd (cc h);
            sound = round.sound;
          })
          (λ u v h. h)

    on_front_end : (x : Text) → get ended.depth x ≡ some (suc k) → includes x ended.next ≡ true
    on_front_end x h = elim (Mid-end.old_or_new x (suc k) h) [
      | inl old ↦ absurd (omega (arith, round.bounded x (suc k) old))
      | inr (_, m) ↦ m
    ]

    bounded_end : (x : Text) (j : ℕ) → get ended.depth x ≡ some j → j ≤ suc k
    bounded_end x j h = elim (Mid-end.old_or_new x j h) [
      | inl old ↦ omega (arith, round.bounded x j old)
      | inr (e, _) ↦ omega arith
    ]

    -- An edge from the frontier.
    followed :
        (u v : Text)
        → get d u ≡ some k
        → has_edge all u v ≡ true
        → (i : ℕ) × (get ended.depth v ≡ some i) × (i ≤ suc k)
    followed u v h edge =
        let (i, found) = scan-reaches frontier all begun u v (round.on_front u h) edge in
        (i, found, bounded_end v i found)

    closed_end :
        (u v : Text) (j : ℕ)
        → get ended.depth u ≡ some j
        → j < suc k
        → has_edge all u v ≡ true
        → (i : ℕ) × (get ended.depth v ≡ some i) × (i ≤ suc j)
    closed_end u v j h lt edge = elim (Mid-end.old_or_new u j h) [
      | inr (e, _) ↦ absurd (omega arith)
      | inl old ↦ elim (dec_lt j k) [
        | yes small ↦
            let (i, g, l) = round.closed u v j old small edge in (i, Mid-end.keeps v i g, l)
        | no large ↦
            let same : j ≡ k = omega arith in
            let (i, found, l) = followed u v (old ∙ ap some same) edge in (i, found, omega arith)
      ]
    ]

    Round-end : Round (suc k) ended.next ended.depth
    Round-end = record {
      front = Mid-end.listed;
      on_front = on_front_end;
      bounded = bounded_end;
      closed = closed_end;
      sound = Mid-end.sound;
      rooted = λ x h. Mid-end.keeps x 0 (round.rooted x h);
    }

  Round-levels :
      (fuel k : ℕ) (frontier : List Text) (d out : Depths)
      → Round k frontier d
      → levels fuel all frontier d ≡ some out
      → (n : ℕ) × Round n [] out
  unfolding levels
  Round-levels zero k [] d out round e = (k, subst (Round k []) (eq_of_some e) round)
  Round-levels zero k (x ∷ xs) d out round e = absurd (cc e)
  Round-levels (suc fuel) k [] d out round e = (k, subst (Round k []) (eq_of_some e) round)
  Round-levels (suc fuel) k (x ∷ xs) d out round e =
      Round-levels fuel (suc k) _ _ out (Round-end k (x ∷ xs) d round) e

  -- At the end no walk is shorter than the depth of its last node.
  complete :
      (n : ℕ) (d : Depths)
      → Round n [] d
      → {x : Text} {m : ℕ} → Walk all rs x m
      → (j : ℕ) × (get d x ≡ some j) × (j ≤ m)
  complete n d round (Walk.start {x} h) = (0, round.rooted x h, omega arith)
  complete n d round (Walk.step {u} {v} {n = m} w edge) =
      let (j, g, l) = complete n d round w in
      elim (dec_lt j n) [
        | yes small ↦ let (i, g', l') = round.closed u v j g small edge in (i, g', omega arith)
        | no large ↦
            let same : j ≡ n = omega (arith, round.bounded u j g) in
            absurd (cc (round.on_front u (g ∙ ap some same)))
      ]

get-at_zero : (xs : List Text) (x : Text) → includes x xs ≡ true → get (at_zero xs) x ≡ some 0
get-at_zero [] x h = absurd (cc h)
get-at_zero (y ∷ ys) x h = ground (arith, get-at_zero ys x)

at_zero-get :
    (xs : List Text) (x : Text) (j : ℕ)
    → get (at_zero xs) x ≡ some j
    → (j ≡ 0) × (includes x xs ≡ true)
at_zero-get [] x j h = absurd (cc h)
at_zero-get (y ∷ ys) x j h = ground (arith, at_zero-get ys x j)

Round-start : (all : List KubeGraphEdge) (rs : List Text) → Round all rs 0 rs (at_zero rs)
Round-start all rs = record {
  front = get-at_zero rs;
  on_front = λ x h. (at_zero-get rs x 0 h).1;
  bounded = λ x j h. omega (arith, (at_zero-get rs x j h).0);
  closed = λ u v j h lt edge. absurd (omega arith);
  sound = λ x j h.
      let (zero_depth, root) = at_zero-get rs x j h in
      subst (Walk all rs x) (sym zero_depth) (Walk.start root);
  rooted = get-at_zero rs;
}

-- For every graph the loop returns depths. A text has a depth exactly if some walk along the edges
-- leads to it from a node of the graph that no edge leads to, and then the depth is the length of
-- such a walk and no such walk is shorter.
pub ownership_depth-shortest :
    (g : KubeGraph)
    → (d : Depths) × (ownership_depth g ≡ some d)
      × ((x : Text) (j : ℕ) → get d x ≡ some j → Descent g x j)
      × ((x : Text) (m : ℕ) → Descent g x m → (j : ℕ) × (get d x ≡ some j) × (j ≤ m))
unfolding ownership_depth
ownership_depth-shortest g =
    let (d, e) = ownership_depth_total g in
    let rs = roots g in
    let (n, round) =
      Round-levels g.edges rs (suc (length g.edges)) 0 rs (at_zero rs) d (Round-start g.edges rs)
        e in
    (
      d,
      e,
      λ x j h. Walk-Descent g (round.sound x j h),
      λ x m w. complete g.edges rs n d round (Descent-Walk g w),
    )
