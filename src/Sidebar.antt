-- ===== src/Sidebar.antt =====
-- client/src/components/organisms/kube_sidebar/KubeSidebar.vm.ts. The counts, which another hook
-- holds, are an argument; an item keeps the root that selecting it passes on.
pub mod Offered
mod Tests
use wiremap.Base.{
  ℕ, Bool, true, false, not, ◌&&◌, ◌||◌, Option, none, some, List, [], ◌∷◌, ◌++◌, map, keep, Text,
  codes, includes, split, ◌==◌, text_eq, if◌then◌else◌,
}
use wiremap.Route.{is_truthy}
use wiremap.Format.{plural_kind}
use wiremap.KubeTypes.{KubeKind, KubeRoot, RootLens}

pub record SectionEntry : Type 0 where
  pub label : Text
  pub root : KubeRoot
  pub count_key : Option Text

unfoldable pub kind_key : Text → Text → Text
kind_key group kind = group ++ (b'/' ∷ kind)

abbrev first_word : List Text → Text
first_word [] = []
first_word (w ∷ ws) = w

abbrev second_word : List Text → Text
second_word [] = []
second_word (w ∷ ws) = first_word ws

-- The keys that the code passes have one slash.
unfoldable pub kind_root : Text → KubeRoot
unfolding split
kind_root key = KubeRoot.kind (first_word (split b'/' key)) (second_word (split b'/' key))

unfoldable pub kind_entry : Text → SectionEntry
unfolding kind_root plural_kind split
kind_entry key = record {
  label = plural_kind (second_word (split b'/' key));
  root = kind_root key;
  count_key = some key;
}

pub record Section : Type 0 where
  pub label : Text
  pub entries : List SectionEntry

abbrev pub lens_entry : Text → RootLens → Option Text → SectionEntry
lens_entry label lens key = record { label = label; root = KubeRoot.lens lens; count_key = key }

unfoldable pub all_sections : List Section
unfolding kind_entry
all_sections =
    record {
      label = codes "Cluster";
      entries =
          lens_entry (codes "Nodes") RootLens.nodes (some (codes "/Node"))
          ∷ kind_entry (codes "/Namespace")
          ∷ lens_entry (codes "Storage map") RootLens.storage none
          ∷ lens_entry (codes "Access map") RootLens.access none
          ∷ [];
    }
    ∷ record {
      label = codes "Workloads";
      entries = map kind_entry (
          codes "/Pod"
          ∷ codes "apps/Deployment"
          ∷ codes "apps/StatefulSet"
          ∷ codes "apps/DaemonSet"
          ∷ codes "apps/ReplicaSet"
          ∷ codes "batch/Job"
          ∷ codes "batch/CronJob"
          ∷ []);
    }
    ∷ record {
      label = codes "Network";
      entries = map kind_entry (
          codes "/Service"
          ∷ codes "networking.k8s.io/Ingress"
          ∷ codes "networking.k8s.io/NetworkPolicy"
          ∷ []);
    }
    ∷ record {
      label = codes "Config & storage";
      entries = map kind_entry (
          codes "/ConfigMap"
          ∷ codes "/Secret"
          ∷ codes "/PersistentVolumeClaim"
          ∷ codes "/PersistentVolume"
          ∷ codes "storage.k8s.io/StorageClass"
          ∷ []);
    }
    ∷ record {
      label = codes "Scaling & policy";
      entries = map kind_entry (
          codes "autoscaling/HorizontalPodAutoscaler"
          ∷ codes "policy/PodDisruptionBudget"
          ∷ codes "/ResourceQuota"
          ∷ codes "/LimitRange"
          ∷ []);
    }
    ∷ record {
      label = codes "Access control";
      entries = map kind_entry (
          codes "/ServiceAccount"
          ∷ codes "rbac.authorization.k8s.io/Role"
          ∷ codes "rbac.authorization.k8s.io/RoleBinding"
          ∷ codes "rbac.authorization.k8s.io/ClusterRole"
          ∷ codes "rbac.authorization.k8s.io/ClusterRoleBinding"
          ∷ []);
    }
    ∷ []

-- The keys of the entries that have one.
abbrev pub keys_of : List SectionEntry → List Text
keys_of [] = []
keys_of (e ∷ es) = elim e.count_key [ none ↦ keys_of es | some key ↦ key ∷ keys_of es ]

abbrev pub entries_of : List Section → List SectionEntry
entries_of [] = []
entries_of (s ∷ ss) = s.entries ++ entries_of ss

-- `PINNED`.
unfoldable pub pinned : List Text
unfolding all_sections
pinned = keys_of (entries_of all_sections)

abbrev same_lens : RootLens → RootLens → Bool
same_lens RootLens.nodes RootLens.nodes = true
same_lens RootLens.storage RootLens.storage = true
same_lens RootLens.access RootLens.access = true
same_lens _ _ = false

unfoldable pub same_root : KubeRoot → KubeRoot → Bool
same_root KubeRoot.overview KubeRoot.overview = true
same_root (KubeRoot.lens l) (KubeRoot.lens m) = same_lens l m
same_root (KubeRoot.kind g k) (KubeRoot.kind h l) = g == h && k == l
same_root _ _ = false

abbrev pub kind_keys : List KubeKind → List Text
kind_keys kinds = map (λ (k : KubeKind). kind_key k.group k.kind) kinds

-- `!e.countKey || served.has(e.countKey)`.
abbrev pub is_served : List KubeKind → SectionEntry → Bool
is_served kinds e = elim e.count_key [ none ↦ true | some key ↦ includes key (kind_keys kinds) ]

pub record Item : Type 0 where
  pub id : Text
  pub label : Text
  pub count : Option ℕ
  pub active : Bool
  pub selects : KubeRoot
  pub group : Option Text

module _ (counts : Text → Option ℕ) (root : KubeRoot) where
  abbrev count_of : Option Text → Option ℕ
  count_of none = none
  count_of (some key) = if is_truthy key then counts key else none

  unfoldable pub to_item : SectionEntry → Item
  unfolding same_root
  to_item e = record {
    id = e.label;
    label = e.label;
    count = count_of e.count_key;
    active = same_root e.root root;
    selects = e.root;
    group = none;
  }

  abbrev pub has_items : Text × List Item → Bool
  has_items (label, []) = false
  has_items (label, i ∷ is) = true

  unfoldable pub sections : List KubeKind → List (Text × List Item)
  unfolding to_item all_sections
  sections kinds = keep has_items (
      map (λ (s : Section). (s.label, map to_item (keep (is_served kinds) s.entries))) all_sections)

  -- The entry of a kind that is not pinned.
  abbrev pub other_entry : KubeKind → SectionEntry
  other_entry k = record {
    label = plural_kind k.kind;
    root = KubeRoot.kind k.group k.kind;
    count_key = none;
  }

  abbrev pub is_other : KubeKind → Bool
  is_other k = not (includes (kind_key k.group k.kind) pinned)

  unfoldable pub others : List KubeKind → List Item
  unfolding to_item pinned kind_key plural_kind
  others kinds =
      map
        (λ (k : KubeKind). record (to_item (other_entry k)) {
          id = kind_key k.group k.kind;
          group = some k.group;
        })
        (keep is_other kinds)

  unfoldable pub overview : Text → Item
  unfolding to_item
  overview namespace = to_item (record {
    label =
        if is_truthy namespace then codes "Namespace " ++ namespace else codes "Cluster overview";
    root = KubeRoot.overview;
    count_key = none;
  })
