-- ===== src/Canvas/Tests.antt =====
-- A namespace with three kinds, and the theorems at it.
use wiremap.Base.{
  ℕ, ◌+◌, ◌-◌, ◌*◌, ◌/◌, min, max, ◌≡◌, refl, inl, false, none, some, List, [], ◌∷◌, map, Text,
  codes, Distinct, same_text,
}
use wiremap.KubeTypes.{KubeGraph, KubeGraphNode, KubeLevel, KubeNodeStatus}
use wiremap.Depth.{Depths, get}
use wiremap.Canvas.{node_columns, raw_column, unique, used}
use wiremap.Canvas.Sorted.{below}
use wiremap.Canvas.Ranks.{node_columns-below}
use wiremap.Canvas.{position_at}
use wiremap.Canvas.Layout.{
  LayoutTarget, Numbers, column_count, column_x, compute_layout, free_column, ungrouped_columns,
}
use wiremap.Canvas.Aligned.{compute_layout-on_line}
use wiremap.Canvas.Styles.{get_group_color, kind_style}

abbrev node : Text → Text → KubeGraphNode
node id kind = record {
  id = id;
  kind = kind;
  api_group = none;
  name = id;
  namespace = some (codes "shop");
  status = KubeNodeStatus.healthy;
  summary = [];
  drillable = false;
  group = none;
  weight = 1;
  details = none;
}

abbrev secret : KubeGraphNode
secret = node (codes "s") (codes "Secret")

abbrev nodes : List KubeGraphNode
nodes = secret ∷ node (codes "d") (codes "Deployment") ∷ node (codes "i") (codes "Ingress") ∷ []

abbrev graph : KubeGraph
graph = record { level = KubeLevel.namespace; nodes = nodes; edges = []; groups = [] }

nodes-used : used nodes ≡ 0 ∷ 4 ∷ 5 ∷ []
unfolding used same_text
nodes-used = refl

nodes-Distinct : Distinct (map (λ (m : KubeGraphNode). m.id) nodes)
unfolding same_text
nodes-Distinct = (refl, (refl, (refl, tt)))

node_columns-below_example :
    (d : Depths) × (node_columns graph ≡ some d)
    × (get d (codes "s") ≡ some (below (raw_column secret) (unique (map raw_column nodes))))
node_columns-below_example = node_columns-below graph secret refl nodes-Distinct (inl refl)

colors_repeat : get_group_color 9 ≡ get_group_color 1
unfolding get_group_color
colors_repeat = refl

unknown_kind :
    kind_style (λ s. s) (codes "Widget") ≡ record { abbr = codes "Wid"; color = codes "#8b8fa7" }
unfolding kind_style same_text
unknown_kind = refl

-- Whole numbers in place of the language's.
abbrev whole : Numbers ℕ
whole = record {
  of = λ n. n;
  plus = λ a b. a + b;
  minus = λ a b. a - b;
  times = λ a b. a * b;
  over = λ a b. a / b;
  max_of = max;
  min_of = min;
  half = 0;
}

abbrev columns : Depths
columns = (codes "s", 1) ∷ (codes "d", 0) ∷ []

secret-free : free_column columns secret ≡ some 1
unfolding same_text
secret-free = refl

compute_layout-on_line_example :
    (t : LayoutTarget ℕ) × (position_at
        (compute_layout whole (λ ns. ns) (λ n. n) columns graph 800 600).targets
        (codes "s")
      ≡ some t)
    × (t.x ≡ column_x whole (column_count (ungrouped_columns columns nodes) []) 800 1)
compute_layout-on_line_example =
    compute_layout-on_line whole columns (λ ns. ns) (λ n ns. (λ h. h, λ h. h)) (λ n. n) graph 800
      600 secret 1 (inl refl) secret-free
