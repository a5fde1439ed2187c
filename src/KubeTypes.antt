-- ===== src/KubeTypes.antt =====
-- client/src/types/kubernetes.ts. An optional field is an `Option`; `Record<string, string>` is a
-- list of pairs.
use wiremap.Base.{ℕ, Bool, Option, none, List, ◌++◌, Text, codes}

pub data KubeLevel : Type 0 where
  cluster namespace object node kind : KubeLevel

pub data KubeLens : Type 0 where
  namespaces nodes storage access : KubeLens

pub data KubeNodeStatus : Type 0 where
  idle healthy warning error : KubeNodeStatus

pub record KubeCluster : Type 0 where
  pub name : Text
  pub connected : Bool

-- The coordinates that the layout library writes (x, y, vx, vy, fx, fy) are left out.
pub record KubeGraphNode : Type 0 where
  pub id : Text
  pub kind : Text
  pub api_group : Option Text
  pub name : Text
  pub namespace : Option Text
  pub status : KubeNodeStatus
  pub summary : Text
  pub drillable : Bool
  pub group : Option Text
  pub weight : ℕ
  pub details : Option (List (Text × Text))

pub data KubeEdgeKind : Type 0 where
  routes selects uses owns bound scales protects applies allows runs_as binds grants : KubeEdgeKind

-- `source` and `target` are ids, as the server sends them.
pub record KubeGraphEdge : Type 0 where
  pub source : Text
  pub target : Text
  pub kind : KubeEdgeKind

pub record KubeGraphGroup : Type 0 where
  pub id : Text
  pub name : Text
  pub kind : Text

pub record KubeGraph : Type 0 where
  pub level : KubeLevel
  pub nodes : List KubeGraphNode
  pub edges : List KubeGraphEdge
  pub groups : List KubeGraphGroup

-- `Exclude<KubeLens, 'namespaces'>`.
pub data RootLens : Type 0 where
  nodes storage access : RootLens

abbrev pub to_lens : RootLens → KubeLens
to_lens RootLens.nodes = KubeLens.nodes
to_lens RootLens.storage = KubeLens.storage
to_lens RootLens.access = KubeLens.access

pub data KubeRoot : Type 0 where
  overview : KubeRoot
  lens : RootLens → KubeRoot
  kind : (group kind : Text) → KubeRoot

pub record KubeView : Type 0 where
  pub level : KubeLevel
  pub lens : Option KubeLens
  pub namespace : Option Text
  pub kind : Option Text
  pub group : Option Text
  pub name : Option Text

-- The view with no field but its level.
abbrev pub bare_view : KubeLevel → KubeView
bare_view l = record {
  level = l;
  lens = none;
  namespace = none;
  kind = none;
  group = none;
  name = none;
}

pub record KubeEvent : Type 0 where
  pub type : Text
  pub reason : Text
  pub message : Text
  pub count : ℕ
  pub last_seen : Text
  pub object : Text

pub record KubeActions : Type 0 where
  pub edit : Bool
  pub delete : Bool
  pub restart : Bool
  pub trigger : Bool
  pub replicas : Option ℕ
  pub suspended : Option Bool
  pub unschedulable : Option Bool

pub record KubeResource : Type 0 where
  pub kind : Text
  pub group : Option Text
  pub name : Text
  pub namespace : Option Text
  pub yaml : Text
  pub events : List KubeEvent
  pub actions : KubeActions

pub record KubeContainer : Type 0 where
  pub name : Text
  pub image : Text
  pub ready : Bool
  pub restart_count : ℕ
  pub state : Text
  pub reason : Option Text
  pub init : Bool

pub record KubePod : Type 0 where
  pub name : Text
  pub namespace : Text
  pub node : Text
  pub phase : Text
  pub status : KubeNodeStatus
  pub pod_ip : Text
  pub host_ip : Text
  pub start_time : Option Text
  pub labels : Option (List (Text × Text))
  pub containers : List KubeContainer

pub record PodTarget : Type 0 where
  pub cluster : Text
  pub namespace : Text
  pub pod : Text
  pub container : Text

unfoldable pub pod_target_key : PodTarget → Text
pod_target_key t =
    t.cluster
    ++ (codes "/" ++ (t.namespace ++ (codes "/" ++ (t.pod ++ (codes "/" ++ t.container)))))

pub record KubeKind : Type 0 where
  pub group : Text
  pub version : Text
  pub resource : Text
  pub kind : Text
  pub namespaced : Bool
  pub short_names : Option (List Text)

pub record KubeObject : Type 0 where
  pub name : Text
  pub namespace : Option Text
  pub kind : Text
  pub group : Option Text
  pub status : KubeNodeStatus
  pub summary : Text
  pub created : Text
  pub drillable : Bool

-- `continue` is the token of the next page.
pub record KubeObjectList : Type 0 where
  pub items : List KubeObject
  pub continue : Option Text

pub data PanelAction : Type 0 where
  logs shell yaml describe : PanelAction

pub record PanelRequest : Type 0 where
  pub action : PanelAction
  pub seq : ℕ
