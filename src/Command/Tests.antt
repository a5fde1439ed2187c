-- ===== src/Command/Tests.antt =====
-- The kinds and lines of kubeCommand.test.ts, and the theorems at some of them.
use wiremap.Base.{
  ◌≡◌, refl, true, some, none, List, [], ◌∷◌, Text, codes, same_text, leb, if◌then◌else◌, ◌+◌,
}
use wiremap.KubeTypes.{KubeKind, KubeRoot, RootLens}
use wiremap.Command.{Found, resolve_kube_command}
use wiremap.Blank.Laws.{IsTight}

-- `toLowerCase` on ASCII.
abbrev lower : Text → Text
lower [] = []
lower (c ∷ s) =
    let rest = lower s in
    if leb b'A' c then if leb c b'Z' then (c + 32) ∷ rest else c ∷ rest else c ∷ rest

abbrev kind_of : Text → Text → Text → Text → KubeKind
kind_of group name resource short = record {
  group = group;
  version = codes "v1";
  resource = resource;
  kind = name;
  namespaced = true;
  short_names = some (short ∷ []);
}

abbrev pods : KubeKind
pods = kind_of [] (codes "Pod") (codes "pods") (codes "po")

abbrev services : KubeKind
services = kind_of [] (codes "Service") (codes "services") (codes "svc")

abbrev aliases : KubeKind
aliases = kind_of (codes "example.com") (codes "PodAlias") (codes "podaliases") (codes "po")

abbrev kinds : List KubeKind
kinds = pods ∷ services ∷ aliases ∷ []

lines :
    (resolve_kube_command lower (codes "  SVC ") kinds
      ≡ some (record { root = Found.root (KubeRoot.kind [] (codes "Service")); namespace = none }))
    × (resolve_kube_command lower (codes "no  kube-system") kinds
        ≡ some (record {
          root = Found.root (KubeRoot.lens RootLens.nodes);
          namespace = some (codes "kube-system");
        }))
    × (resolve_kube_command lower (codes "po *") kinds
        ≡ some (record { root = Found.root (KubeRoot.kind [] (codes "Pod")); namespace = some [] }))
    × (resolve_kube_command lower (codes "   ") kinds ≡ none)
unfolding resolve_kube_command same_text
lines = (refl, refl, refl, refl)

typed : IsTight (codes "Svc  Shop")
typed = record { first = refl; last = refl }

unknown : IsTight (codes "nope")
unknown = record { first = refl; last = refl }

member : IsTight (codes "Constructor")
member = record { first = refl; last = refl }
