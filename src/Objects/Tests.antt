-- ===== src/Objects/Tests.antt =====
-- A server with two pages of pods, and the theorems at it.
use wiremap.Base.{
  ℕ, suc, zero, ◌≡◌, ◌≢◌, ◌<◌, refl, true, false, none, some, [], ◌∷◌, Text, codes, arith,
}
use wiremap.KubeTypes.{KubeKind, KubeNodeStatus, KubeObject, KubeObjectList}
use wiremap.Objects.{
  KubeObjects, Scope, change, step, has_more, mounted, shown_items, loading, asked_namespace,
}
use wiremap.Objects.Paging.{IsPaged, Turn, pages, serve, token_after, turns, turns-IsPaged}
use wiremap.Objects.Loading.{IsShowing, load_all, load_pages}

abbrev pods : KubeKind
pods = record {
  group = [];
  version = codes "v1";
  resource = codes "pods";
  kind = codes "Pod";
  namespaced = true;
  short_names = none;
}

abbrev object : Text → KubeObject
object name = record {
  name = name;
  namespace = some (codes "shop");
  kind = codes "Pod";
  group = none;
  status = KubeNodeStatus.healthy;
  summary = [];
  created = [];
  drillable = true;
}

abbrev web : KubeObject
web = object (codes "web")

abbrev api : KubeObject
api = object (codes "api")

-- The token "2" leads to the last page.
abbrev list : Text → KubeObjectList
list [] = record { items = web ∷ []; continue = some (codes "2") }
list (c ∷ t) = record { items = api ∷ []; continue = none }

abbrev scope : Scope
scope = record { cluster = codes "prod"; kind = some pods; namespace = codes "shop" }

abbrev start : KubeObjects
start = record {
  scope = scope;
  items = some (web ∷ []);
  continue_token = codes "2";
  error = none;
  loading_more = false;
  extra_pages = 0;
  requests = [];
}

hook :
    (loading (mounted scope) ≡ true)
    × (asked_namespace scope ≡ codes "shop")
    × (shown_items
          (turns list (Turn.asks_more none ∷ Turn.tick none ∷ []) (serve list none (mounted scope)))
        ≡ web ∷ api ∷ [])
unfolding loading mounted asked_namespace shown_items turns serve step
hook = (refl, refl, refl)

turns-IsPaged_example : IsPaged list (
    turns list
      (Turn.tick none ∷ Turn.asks_more (some (codes "gone")) ∷ [])
      (serve list none (change scope start)))
turns-IsPaged_example =
    turns-IsPaged list scope none start (Turn.tick none ∷ Turn.asks_more (some (codes "gone")) ∷ [])
      refl

first_page : IsShowing list 0 start
unfolding pages token_after
first_page = record { calm = refl; chosen = λ e. cc; extra = refl; items = refl; token = refl }

tokens : (j : ℕ) → j < 1 → token_after list j ≢ []
unfolding token_after
tokens zero h = λ e. cc
tokens (suc j) h = absurd (omega (arith, h))

last : token_after list 1 ≡ []
unfolding token_after
last = refl

load_all_example :
    (shown_items (turns list (load_pages list 1) start) ≡ pages list 1)
    × (has_more (turns list (load_pages list 1) start) ≡ false)
load_all_example = load_all list 1 start first_page tokens last

abbrev services : KubeKind
services = record pods { resource = codes "services"; kind = codes "Service" }
