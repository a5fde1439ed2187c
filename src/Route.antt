-- ===== src/Route.antt =====
-- client/src/services/kubeRoute.ts: the hash in the address bar, read and written.
pub mod Laws
pub mod RoundTrip
pub mod Reading
pub mod Ambiguity
mod Tests
use wiremap.Base.{
  ℕ, Bool, not, ◌&&◌, Option, none, some, List, [], ◌∷◌, ◌++◌, map, Text, codes, starts_with, drop,
  split, join, find, ◌==◌, text_eq, if◌then◌else◌,
}
use wiremap.Uri.{encode_uri_component, decode_uri_component}
use wiremap.KubeTypes.{KubeLevel, KubeRoot, KubeView, RootLens, bare_view}
use mathlib.Core.Option

abbrev pub prefix : Text
prefix = codes "#/k8s/"

abbrev pub all_namespaces : Text
all_namespaces = codes "*"

abbrev pub no_namespace : Text
no_namespace = codes "-"

pub record KubeRoute : Type 0 where
  pub cluster : Text
  -- "" for all namespaces
  pub namespace : Text
  pub root : KubeRoot
  -- objects and nodes opened from the root, outermost first
  pub drills : List KubeView

abbrev pub default_route : Text → KubeRoute
default_route cluster = record {
  cluster = cluster;
  namespace = [];
  root = KubeRoot.overview;
  drills = [];
}

-- The truth value of a text, and of a text that may be undefined.
abbrev pub is_truthy : Text → Bool
is_truthy s = not (s == [])

-- `x || d`, for a text that may be undefined.
abbrev pub or_else : Option Text → Text → Text
or_else none d = d
or_else (some s) d = if is_truthy s then s else d

unfoldable pub kind_segment : Text → Text → Text
kind_segment kind group = if is_truthy group then kind ++ (codes "." ++ group) else kind

pub record SplitKind : Type 0 where
  pub kind : Text
  pub group : Text

abbrev pub split_words : List Text → SplitKind
split_words [] = record { kind = []; group = [] }
split_words (kind ∷ group) = record { kind = kind; group = join b'.' group }

unfoldable pub split_kind : Text → SplitKind
split_kind segment = split_words (split b'.' segment)

abbrev pub lens_word : RootLens → Text
lens_word RootLens.nodes = codes "nodes"
lens_word RootLens.storage = codes "storage"
lens_word RootLens.access = codes "access"

abbrev pub lenses : List RootLens
lenses = RootLens.nodes ∷ RootLens.storage ∷ RootLens.access ∷ []

-- A kind root from its segment, by `splitKind`.
abbrev kind_root : SplitKind → KubeRoot
kind_root k = KubeRoot.kind k.group k.kind

unfoldable pub root_of : Text → KubeRoot
unfolding split_kind
root_of segment = elim (find (λ l. lens_word l == segment) lenses) [
  | some l ↦ KubeRoot.lens l
  | none ↦ if segment == codes "overview" then KubeRoot.overview else kind_root (split_kind segment)
]

abbrev pub node_view : Text → KubeView
node_view name = record (bare_view KubeLevel.node) { name = some name }

abbrev pub object_view : (namespace kind group name : Text) → KubeView
object_view namespace kind group name = record (bare_view KubeLevel.object) {
  namespace = some namespace;
  kind = some kind;
  group = some group;
  name = some name;
}

-- One triple of segments.
unfoldable pub drill_of : SplitKind → (namespace name : Text) → KubeView
drill_of k namespace name =
    if k.kind == codes "Node" && not (is_truthy k.group)
    then node_view name
    else object_view (if namespace == no_namespace then [] else namespace) k.kind k.group name

-- The loop over `rest`; an incomplete triple at the end is dropped.
unfoldable pub drills_of : List Text → List KubeView
unfolding split_kind drill_of
drills_of (kind ∷ namespace ∷ name ∷ rest) =
    drill_of (split_kind kind) namespace name ∷ drills_of rest
drills_of _ = []

-- `namespace` and `rootSegment` are given, or by default.
abbrev route_of : (cluster namespace root : Text) → List Text → Option KubeRoute
route_of cluster namespace root rest =
    if is_truthy cluster
    then some (record {
      cluster = cluster;
      namespace = if namespace == all_namespaces then [] else namespace;
      root = root_of root;
      drills = drills_of rest;
    })
    else none

unfoldable pub route_of_segments : List Text → Option KubeRoute
unfolding root_of drills_of
route_of_segments [] = none
route_of_segments (c ∷ []) = route_of c all_namespaces (codes "overview") []
route_of_segments (c ∷ n ∷ []) = route_of c n (codes "overview") []
route_of_segments (c ∷ n ∷ r ∷ rest) = route_of c n r rest

abbrev cons_some : Option Text → Option (List Text) → Option (List Text)
cons_some (some t) (some ts) = some (t ∷ ts)
cons_some _ _ = none

-- `segments.map(decodeURIComponent)`; `none` is the URIError of the first that throws.
unfoldable pub decode_all : List Text → Option (List Text)
unfolding decode_uri_component
decode_all [] = some []
decode_all (s ∷ ss) = cons_some (decode_uri_component s) (decode_all ss)

-- What a call ends with: an exception, or a value.
pub data Outcome {ℓ} (A : Type ℓ) : Type ℓ where
  uri_error : Outcome A
  returns : A → Outcome A

abbrev returned : Option (List Text) → Outcome (Option KubeRoute)
returned none = Outcome.uri_error
returned (some segments) = Outcome.returns (route_of_segments segments)

unfoldable pub parse_kube_hash : Text → Outcome (Option KubeRoute)
unfolding decode_all route_of_segments
parse_kube_hash hash =
    if starts_with prefix hash
    then returned (decode_all (split b'/' (drop 6 hash)))
    else Outcome.returns none

abbrev pub root_segment : KubeRoot → Text
root_segment KubeRoot.overview = codes "overview"
root_segment (KubeRoot.lens l) = lens_word l
root_segment (KubeRoot.kind group kind) = kind_segment kind group

-- `view.group` absent is as good as "".
abbrev pub view_segments_by : KubeLevel → KubeView → List Text
view_segments_by KubeLevel.node view = codes "Node" ∷ no_namespace ∷ or_else view.name [] ∷ []
view_segments_by _ view =
    kind_segment (or_else view.kind []) (or_else view.group [])
    ∷ or_else view.namespace no_namespace
    ∷ or_else view.name []
    ∷ []

abbrev pub view_segments : KubeView → List Text
view_segments view = view_segments_by view.level view

unfoldable pub drill_segments : List KubeView → List Text
unfolding kind_segment
drill_segments [] = []
drill_segments (view ∷ views) = view_segments view ++ drill_segments views

unfoldable pub route_segments : KubeRoute → List Text
unfolding drill_segments
route_segments route =
    route.cluster
    ∷ (if is_truthy route.namespace then route.namespace else all_namespaces)
    ∷ root_segment route.root
    ∷ drill_segments route.drills

unfoldable pub to_kube_hash : KubeRoute → Text
unfolding route_segments encode_uri_component
to_kube_hash route = prefix ++ join b'/' (map encode_uri_component (route_segments route))
