-- ===== src/Sidebar/Tests.antt =====
-- The sidebar of a cluster with a pinned kind and another one.
use wiremap.Base.{
  ◌≡◌, ℕ, refl, true, false, Option, none, some, List, [], ◌∷◌, map, Text, codes, includes,
  Distinct, same_text,
}
use wiremap.KubeTypes.{KubeKind, KubeRoot}
use wiremap.Sidebar.{Item, kind_keys, kind_key, others, overview, sections, to_item}
use wiremap.Sidebar.Offered.{items_of, offered, offered-served, shown}

abbrev kind : Text → Text → KubeKind
kind group name = record {
  group = group;
  version = codes "v1";
  resource = [];
  kind = name;
  namespaced = true;
  short_names = none;
}

abbrev kinds : List KubeKind
kinds = kind [] (codes "Pod") ∷ kind (codes "cert-manager.io") (codes "Issuer") ∷ []

abbrev counts : Text → Option ℕ
counts key = some 3

abbrev root : KubeRoot
root = KubeRoot.kind [] (codes "Pod")

shown_items :
    (map (λ (i : Item). i.label) (items_of (sections counts root kinds))
      ≡ codes "Storage map" ∷ codes "Access map" ∷ codes "Pods" ∷ [])
    × (map (λ (i : Item). i.active) (items_of (sections counts root kinds))
        ≡ false ∷ false ∷ true ∷ [])
    × (map (λ (i : Item). i.label) (others counts root kinds) ≡ codes "Issuers" ∷ [])
    × ((overview counts root (codes "shop")).label ≡ codes "Namespace shop")
unfolding sections others overview same_text kind_key
shown_items = (refl, refl, refl, refl)

kinds-Distinct : Distinct (kind_keys kinds)
unfolding kind_key same_text
kinds-Distinct = (refl, (refl, tt))

offered-served_example :
    (items_of (sections counts root kinds) ≡ map (to_item counts root) (shown kinds))
    × ((x : Text) → includes x (offered counts root kinds) ≡ includes x (kind_keys kinds))
    × Distinct (offered counts root kinds)
offered-served_example = offered-served counts root kinds kinds-Distinct
