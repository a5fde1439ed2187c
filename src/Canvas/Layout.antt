-- ===== src/Canvas/Layout.antt =====
-- `computeLayout` of GraphCanvas.vm.ts: the points to which the simulation pulls the nodes and the
-- groups. The language's numbers, which are floating-point, are a parameter with their operations.
use wiremap.Base.{
  ℕ, ◌+◌, ◌-◌, ◌/◌, ◌%◌, max, Bool, true, false, Option, none, some, List, [], ◌∷◌, ◌++◌, Text,
  length, ltb, if◌then◌else◌, ◌==◌, nat_eq, text_eq,
}
use wiremap.KubeTypes.{KubeGraph, KubeGraphGroup, KubeGraphNode}
use wiremap.Route.{is_truthy, or_else}
use wiremap.Depth.{Depths, get}
use wiremap.Canvas.{unique}

-- `+ - * /`, `Math.max`, `Math.min`, a count as a number, and one half.
pub record Numbers (N : Type 0) : Type 0 where
  pub of : ℕ → N
  pub plus : N → N → N
  pub minus : N → N → N
  pub times : N → N → N
  pub over : N → N → N
  pub max_of : N → N → N
  pub min_of : N → N → N
  pub half : N

pub record LayoutTarget (N : Type 0) : Type 0 where
  pub x : N
  pub y : N

abbrev pub is_grouped : KubeGraphNode → Bool
is_grouped n = is_truthy (or_else n.group [])

-- The column of a node that has no group.
abbrev pub free_column : Depths → KubeGraphNode → Option ℕ
free_column columns n = if is_grouped n then none else get columns n.id

abbrev free_columns : Depths → List KubeGraphNode → List ℕ
free_columns columns [] = []
free_columns columns (n ∷ ns) =
    let rest = free_columns columns ns in
    elim (free_column columns n) [ none ↦ rest | some c ↦ c ∷ rest ]

unfoldable pub ungrouped_columns : Depths → List KubeGraphNode → List ℕ
unfolding unique
ungrouped_columns columns nodes = unique (free_columns columns nodes)

-- `Math.max(...xs, -1) + 1`.
abbrev pub after_last : List ℕ → ℕ
after_last [] = 0
after_last (c ∷ cs) = max (c + 1) (after_last cs)

abbrev is_any : {A : Type 0} → List A → Bool
is_any [] = false
is_any (x ∷ xs) = true

unfoldable pub column_count : List ℕ → List KubeGraphGroup → ℕ
column_count ungrouped groups = after_last ungrouped + (if is_any groups then 1 else 0)

-- The columns with their nodes, in the order in which they appear.
abbrev pub ByColumn : Type 0
ByColumn = List (ℕ × List KubeGraphNode)

abbrev pub add_node : ℕ → KubeGraphNode → ByColumn → ByColumn
add_node c n [] = (c, n ∷ []) ∷ []
add_node c n ((d, ns) ∷ rest) =
    let later = add_node c n rest in if d == c then (d, ns ++ (n ∷ [])) ∷ rest else (d, ns) ∷ later

unfoldable pub by_column : Depths → List KubeGraphNode → ByColumn → ByColumn
by_column columns [] b = b
by_column columns (n ∷ ns) b =
    by_column columns ns (elim (free_column columns n) [ none ↦ b | some c ↦ add_node c n b ])

module _ {N : Type 0} (num : Numbers N) where
  unfoldable pub column_width : ℕ → N → N
  column_width count width =
      if ltb 1 count
      then num.min_of
          (num.max_of (num.of 240) (num.over (num.minus width (num.of 200)) (num.of (count - 1))))
          (num.of 380)
      else num.of 0

  unfoldable pub column_x : ℕ → N → ℕ → N
  unfolding column_width
  column_x count width c =
      if ltb 1 count
      then num.plus (num.of 100) (num.times (num.of c) (column_width count width))
      else num.over width (num.of 2)

  abbrev pub Targets : Type 0
  Targets = List (Text × LayoutTarget N)

  -- The nodes of a column from the `i`th on.
  abbrev pub stack : N → N → N → ℕ → List KubeGraphNode → Targets → Targets
  stack x top spacing i [] targets = targets
  stack x top spacing i (n ∷ ns) targets =
      stack x top spacing (i + 1) ns
        ((n.id, record { x = x; y = num.plus top (num.times (num.of i) spacing) }) ∷ targets)

  abbrev pub spacing_of : N → ℕ → N
  spacing_of height n = num.max_of (num.of 110) (num.over height (num.of (n + 1)))

  abbrev pub top_of : N → ℕ → N
  top_of height n =
      num.minus (num.over height (num.of 2))
        (num.over (num.times (spacing_of height n) (num.of (n - 1))) (num.of 2))

  -- `by_name` sorts by localeCompare of the names.
  unfoldable pub place_columns :
      (List KubeGraphNode → List KubeGraphNode) → (ℕ → N) → N → ByColumn → Targets → Targets
  place_columns by_name x height [] targets = targets
  place_columns by_name x height ((c, ns) ∷ rest) targets = place_columns by_name x height rest (
      stack (x c) (top_of height (length ns)) (spacing_of height (length ns)) 0 (by_name ns)
        targets)

  -- `Math.ceil(n / 3)` and the like.
  abbrev ceil_div : ℕ → ℕ → ℕ
  ceil_div n k = (n + (k - 1)) / k

  abbrev centers : ℕ → N → N → N → ℕ → List KubeGraphGroup → Targets → Targets
  centers cols left cell_w cell_h i [] done = done
  centers cols left cell_w cell_h i (g ∷ gs) done = centers cols left cell_w cell_h (i + 1) gs (
      (
        g.id,
        record {
          x = num.plus left (num.times cell_w (num.plus (num.of (i % cols)) num.half));
          y = num.times cell_h (num.plus (num.of (i / cols)) num.half);
        },
      )
      ∷ done)

  -- `ceil_sqrt n` is `Math.ceil(Math.sqrt(n))`.
  unfoldable pub group_centers : (ℕ → ℕ) → (ℕ → N) → N → N → List ℕ → List KubeGraphGroup → Targets
  group_centers ceil_sqrt x width height ungrouped groups =
      let beside = is_any ungrouped in
      let thirds = ceil_div (length groups) 3 in
      let left = if beside then num.minus (x (after_last ungrouped)) (num.of 140) else num.of 0 in
      let area =
        if beside then num.times (num.of 280) (num.of thirds) else num.max_of width (num.of 300) in
      let cols = if beside then thirds else ceil_sqrt (length groups) in
      centers cols left (num.max_of (num.over area (num.of cols)) (num.of 280))
        (num.max_of (num.over height (num.of (ceil_div (length groups) cols))) (num.of 260)) 0
        groups []

  pub record Layout : Type 0 where
    pub targets : Targets
    pub group_centers : Targets

  unfoldable pub compute_layout :
      (List KubeGraphNode → List KubeGraphNode) → (ℕ → ℕ) → Depths → KubeGraph → N → N → Layout
  unfolding ungrouped_columns column_count column_x by_column place_columns
  compute_layout by_name ceil_sqrt columns g width height =
      let ungrouped = ungrouped_columns columns g.nodes in
      let x = column_x (column_count ungrouped g.groups) width in
      record {
        targets = place_columns by_name x height (by_column columns g.nodes []) [];
        group_centers = group_centers ceil_sqrt x width height ungrouped g.groups;
      }
