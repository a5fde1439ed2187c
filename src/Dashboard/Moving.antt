-- ===== src/Dashboard/Moving.antt =====
-- Walking through the ordered nodes with the arrow keys, KubeDashboard.vm.ts.
use wiremap.Base.{
  Distinct, same_text_sym, ◌⊎◌, inl, inr, subst, ℕ, zero, suc, ◌+◌, ◌-◌, ◌%◌, ◌<◌, ◌≡◌, refl, sym,
  ap, ◌∙◌, true, false, some, List, [], ◌∷◌, length, get_elem?, arith, includes, eq_self, text_eq,
  same_text, not_none-some, eq_of_some,
}
use native.Mathlib.Nat.{mod-lt, mod-eq_of_lt, mod-add-mod, add-mod_right}
use wiremap.KubeTypes.{KubeGraphNode}
use wiremap.Graphs.{node_ids}
use wiremap.Hotkeys.{Delta}
use wiremap.Dashboard.{
  Dashboard, find_index, handle_select, move, moved, next_index, index_of_selected,
}

get-lt :
    (ns : List KubeGraphNode) (i : ℕ) (n : KubeGraphNode) → get_elem? ns i ≡ some n → i < length ns
get-lt [] i n h = absurd (not_none-some h)
get-lt (m ∷ ns) zero n h = omega arith
get-lt (m ∷ ns) (suc i) n h = omega (arith, get-lt ns i n h)

get_of_lt :
    (ns : List KubeGraphNode) (i : ℕ)
    → i < length ns
    → (n : KubeGraphNode) × (get_elem? ns i ≡ some n)
get_of_lt [] i h = absurd (omega (arith, h))
get_of_lt (m ∷ ns) zero h = (m, refl)
get_of_lt (m ∷ ns) (suc i) h = get_of_lt ns i (omega (arith, h))

includes_of_get :
    (ns : List KubeGraphNode) (i : ℕ) (n : KubeGraphNode)
    → get_elem? ns i ≡ some n
    → includes n.id (node_ids ns) ≡ true
includes_of_get [] i n h = absurd (not_none-some h)
includes_of_get (m ∷ ns) zero n h = rw (eq_of_some h, eq_self n.id) refl
includes_of_get (m ∷ ns) (suc i) n h = ground (arith, includes_of_get ns i n h)

-- With distinct ids, the index of a node's id is the index of the node.
find_index-get :
    (ns : List KubeGraphNode) (i : ℕ) (n : KubeGraphNode)
    → Distinct (node_ids ns)
    → get_elem? ns i ≡ some n
    → find_index n.id ns ≡ some i
unfolding find_index
find_index-get [] i n d h = absurd (not_none-some h)
find_index-get (m ∷ ns) zero n d h = rw (eq_of_some h, eq_self n.id) refl
find_index-get (m ∷ ns) (suc i) n d h =
    let other : same_text m.id n.id ≡ false = differ m ns i n d.0 h in
    rw (other, find_index-get ns i n d.1 h) refl
  where
    differ :
        (m : KubeGraphNode) (ns : List KubeGraphNode) (i : ℕ) (n : KubeGraphNode)
        → includes m.id (node_ids ns) ≡ false
        → get_elem? ns i ≡ some n
        → same_text m.id n.id ≡ false
    differ m [] i n d h = absurd (not_none-some h)
    differ m (k ∷ ns) zero n d h =
        let t : same_text k.id m.id ≡ false = ground (arith, d) in
        same_text_sym m.id n.id
          (subst (λ (x : KubeGraphNode). same_text x.id m.id ≡ false) (eq_of_some h) t)
    differ m (k ∷ ns) (suc i) n d h = differ m ns i n (ground (arith, d)) h

-- The node at an index is selected.
pub record IsAt (ordered : List KubeGraphNode) (i : ℕ) (s : Dashboard) : Type 0 where
  pub node : KubeGraphNode
  pub selected : s.selected ≡ some node
  pub listed : get_elem? ordered i ≡ some node

select-get :
    (ns : List KubeGraphNode) (i : ℕ) (s : Dashboard)
    → i < length ns
    → IsAt ns i (handle_select (get_elem? ns i) s)
select-get ns i s h =
    let (n, e) = get_of_lt ns i h in
    rw e (record { node = n; selected = unfold handle_select in refl; listed = e })

moved-lt : (d : Delta) (i n : ℕ) → i < n → moved d i n < n
moved-lt Delta.down i n h = mod-lt (i + 1 + n) (omega (arith, h))
moved-lt Delta.up i n h = mod-lt (i + n - 1) (omega (arith, h))

pub move-IsAt :
    (ordered : List KubeGraphNode) (d : Delta) (i : ℕ) (s : Dashboard)
    → Distinct (node_ids ordered)
    → IsAt ordered i s
    → IsAt ordered (moved d i (length ordered)) (move ordered d s)
unfolding move
move-IsAt [] d i s u h = absurd (not_none-some h.listed)
move-IsAt (n ∷ ns) d i s u h =
    let lt : i < length (n ∷ ns) = get-lt (n ∷ ns) i h.node h.listed in
    let found : index_of_selected s.selected (n ∷ ns) ≡ some i =
      ap (λ o. index_of_selected o (n ∷ ns)) h.selected
      ∙ find_index-get (n ∷ ns) i h.node u h.listed in
    subst
      (λ j.
        IsAt (n ∷ ns) (moved d i (length (n ∷ ns)))
          (handle_select (get_elem? (n ∷ ns) (next_index d j (length (n ∷ ns)))) s))
      (sym found) (at d lt)
  where
    at :
        (d : Delta)
        → i < length (n ∷ ns)
        → IsAt
            (n ∷ ns)
            (moved d i (length (n ∷ ns)))
            (handle_select (get_elem? (n ∷ ns) (next_index d (some i) (length (n ∷ ns)))) s)
    at Delta.down lt = select-get (n ∷ ns) _ s (moved-lt Delta.down i (length (n ∷ ns)) lt)
    at Delta.up lt = select-get (n ∷ ns) _ s (moved-lt Delta.up i (length (n ∷ ns)) lt)

down_inside : (i n : ℕ) → i + 1 < n → moved Delta.down i n ≡ i + 1
down_inside i n h = add-mod_right (i + 1) n ∙ mod-eq_of_lt h

down_last : (i n : ℕ) → i + 1 ≡ n → moved Delta.down i n ≡ 0
down_last i n h =
    ap (λ k. (k + n) % n) h
    ∙ add-mod_right n n
    ∙ ap (λ k. k % n) (omega arith)
    ∙ add-mod_right 0 n
    ∙ mod-eq_of_lt (omega (arith, h))

up_inside : (i n : ℕ) → i + 1 < n → moved Delta.up (i + 1) n ≡ i
up_inside i n h =
    ap (λ k. k % n) (omega arith) ∙ add-mod_right i n ∙ mod-eq_of_lt (omega (arith, h))

up_first : (n : ℕ) → 0 < n → moved Delta.up 0 n ≡ n - 1
up_first n h = mod-eq_of_lt (omega (arith, h)) ∙ omega arith

up-down : (i n : ℕ) → i < n → moved Delta.up (moved Delta.down i n) n ≡ i
up-down i n h = elim (inside_or_last i n h) [
  | inl l ↦ ap (λ k. moved Delta.up k n) (down_inside i n l) ∙ up_inside i n l
  | inr e ↦
      ap (λ k. moved Delta.up k n) (down_last i n e)
      ∙ up_first n (omega (arith, h))
      ∙ omega (arith, e)
]
  where
    inside_or_last : (i n : ℕ) → i < n → (i + 1 < n) ⊎ (i + 1 ≡ n)
    inside_or_last i n h = ground arith

down-up : (i n : ℕ) → i < n → moved Delta.down (moved Delta.up i n) n ≡ i
down-up zero n h =
    ap (λ k. moved Delta.down k n) (up_first n h) ∙ down_last (n - 1) n (omega (arith, h))
down-up (suc i) n h =
    ap (λ k. moved Delta.down (moved Delta.up k n) n) (omega arith)
    ∙ ap (λ k. moved Delta.down k n) (up_inside i n (omega (arith, h)))
    ∙ down_inside i n (omega (arith, h))
    ∙ omega arith

module _ (ordered : List KubeGraphNode) where
  abbrev pub move_down : ℕ → Dashboard → Dashboard
  move_down zero s = s
  move_down (suc m) s = move ordered Delta.down (move_down m s)

  -- If the ids of the ordered nodes are distinct and the one at index `i` is selected, then pressing
  -- the down arrow `m` times selects the one at index `i + m`, counted around the list.
  pub move_down-IsAt :
      (m i : ℕ) (s : Dashboard)
      → Distinct (node_ids ordered)
      → IsAt ordered i s
      → IsAt ordered ((i + m) % length ordered) (move_down m s)
  move_down-IsAt zero i s u h =
      subst (λ j. IsAt ordered j s)
        (sym (mod-eq_of_lt (omega (arith, get-lt ordered i h.node h.listed)) ∙ omega arith)) h
  move_down-IsAt (suc m) i s u h =
      let n = length ordered in
      subst (λ j. IsAt ordered j (move_down (suc m) s))
        (add-mod_right ((i + m) % n + 1) n
          ∙ mod-add-mod (i + m) n 1
          ∙ ap (λ k. k % n) (omega arith))
        (move-IsAt ordered Delta.down ((i + m) % n) (move_down m s) u (move_down-IsAt m i s u h))

  again :
      (d e : Delta) (i : ℕ) (s : Dashboard)
      → Distinct (node_ids ordered)
      → IsAt ordered i s
      → moved e (moved d i (length ordered)) (length ordered) ≡ i
      → (move ordered e (move ordered d s)).selected ≡ s.selected
  again d e i s u h same =
      let there = move-IsAt ordered d i s u h in
      let back = move-IsAt ordered e _ (move ordered d s) u there in
      back.selected ∙ sym back.listed ∙ ap (get_elem? ordered) same ∙ h.listed ∙ sym h.selected

  -- If the ids of the ordered nodes are distinct and one of them is selected, then the up arrow after
  -- the down arrow, and the down arrow after the up arrow, select it again.
  pub move-move :
      (i : ℕ) (s : Dashboard)
      → Distinct (node_ids ordered)
      → IsAt ordered i s
      → ((move ordered Delta.up (move ordered Delta.down s)).selected ≡ s.selected)
        × ((move ordered Delta.down (move ordered Delta.up s)).selected ≡ s.selected)
  move-move i s u h =
      let lt = get-lt ordered i h.node h.listed in
      (
        again Delta.down Delta.up i s u h (up-down i (length ordered) lt),
        again Delta.up Delta.down i s u h (down-up i (length ordered) lt),
      )
