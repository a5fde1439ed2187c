-- ===== src/Canvas/Styles.antt =====
-- The colours of GraphCanvas.vm.ts: of a status, a kind, an edge and a group.
use wiremap.Base.{
  ℕ, ◌%◌, Option, none, some, List, [], ◌∷◌, Text, codes, take, get_elem?, length, if◌then◌else◌,
  ◌==◌, text_eq,
}
use wiremap.KubeTypes.{KubeEdgeKind, KubeNodeStatus}

abbrev pub status_color : KubeNodeStatus → Text
status_color KubeNodeStatus.healthy = codes "#22c55e"
status_color KubeNodeStatus.warning = codes "#f59e0b"
status_color KubeNodeStatus.error = codes "#ef4444"
status_color KubeNodeStatus.idle = codes "#8b8fa7"

pub record KindStyle : Type 0 where
  pub abbr : Text
  pub color : Text

abbrev style : Text → Text → KindStyle
style abbr color = record { abbr = abbr; color = color }

abbrev pub kind_styles : List (Text × KindStyle)
kind_styles =
    (codes "Namespace", style (codes "NS") (codes "#6366f1"))
    ∷ (codes "Node", style (codes "NO") (codes "#06b6d4"))
    ∷ (codes "Ingress", style (codes "ING") (codes "#ec4899"))
    ∷ (codes "Gateway", style (codes "GW") (codes "#db2777"))
    ∷ (codes "HTTPRoute", style (codes "HR") (codes "#f472b6"))
    ∷ (codes "GRPCRoute", style (codes "GR") (codes "#f472b6"))
    ∷ (codes "TLSRoute", style (codes "TLS") (codes "#f472b6"))
    ∷ (codes "TCPRoute", style (codes "TCP") (codes "#f472b6"))
    ∷ (codes "UDPRoute", style (codes "UDP") (codes "#f472b6"))
    ∷ (codes "Service", style (codes "SVC") (codes "#3b82f6"))
    ∷ (codes "Deployment", style (codes "DEP") (codes "#8b5cf6"))
    ∷ (codes "StatefulSet", style (codes "STS") (codes "#a855f7"))
    ∷ (codes "DaemonSet", style (codes "DS") (codes "#14b8a6"))
    ∷ (codes "ReplicaSet", style (codes "RS") (codes "#818cf8"))
    ∷ (codes "ReplicationController", style (codes "RC") (codes "#818cf8"))
    ∷ (codes "Job", style (codes "JOB") (codes "#f97316"))
    ∷ (codes "CronJob", style (codes "CJ") (codes "#fb923c"))
    ∷ (codes "Pod", style (codes "POD") (codes "#22c55e"))
    ∷ (codes "Container", style (codes "CTR") (codes "#10b981"))
    ∷ (codes "HorizontalPodAutoscaler", style (codes "HPA") (codes "#84cc16"))
    ∷ (codes "PodDisruptionBudget", style (codes "PDB") (codes "#65a30d"))
    ∷ (codes "ConfigMap", style (codes "CM") (codes "#eab308"))
    ∷ (codes "Secret", style (codes "SEC") (codes "#ef4444"))
    ∷ (codes "PersistentVolumeClaim", style (codes "PVC") (codes "#0ea5e9"))
    ∷ (codes "PersistentVolume", style (codes "PV") (codes "#0284c7"))
    ∷ (codes "StorageClass", style (codes "SC") (codes "#0369a1"))
    ∷ (codes "ResourceQuota", style (codes "RQ") (codes "#a3a3a3"))
    ∷ (codes "LimitRange", style (codes "LR") (codes "#a3a3a3"))
    ∷ (codes "NetworkPolicy", style (codes "NP") (codes "#f43f5e"))
    ∷ (codes "ServiceAccount", style (codes "SA") (codes "#c084fc"))
    ∷ (codes "RoleBinding", style (codes "RB") (codes "#d946ef"))
    ∷ (codes "ClusterRoleBinding", style (codes "CRB") (codes "#d946ef"))
    ∷ (codes "Role", style (codes "ROL") (codes "#e879f9"))
    ∷ (codes "ClusterRole", style (codes "CR") (codes "#e879f9"))
    ∷ (codes "User", style (codes "USR") (codes "#38bdf8"))
    ∷ (codes "Group", style (codes "GRP") (codes "#38bdf8"))
    ∷ []

pub record EdgeStyle : Type 0 where
  pub color : Text
  pub dash : Option Text

abbrev pub edge_style : KubeEdgeKind → EdgeStyle
edge_style KubeEdgeKind.routes = record { color = codes "#ec4899"; dash = none }
edge_style KubeEdgeKind.selects = record { color = codes "#3b82f6"; dash = none }
edge_style KubeEdgeKind.owns = record { color = codes "#8b8fa7"; dash = none }
edge_style KubeEdgeKind.uses = record { color = codes "#eab308"; dash = some (codes "4 3") }
edge_style KubeEdgeKind.bound = record { color = codes "#0ea5e9"; dash = some (codes "4 3") }
edge_style KubeEdgeKind.scales = record { color = codes "#84cc16"; dash = some (codes "2 3") }
edge_style KubeEdgeKind.protects = record { color = codes "#65a30d"; dash = some (codes "2 3") }
edge_style KubeEdgeKind.applies = record { color = codes "#f43f5e"; dash = some (codes "2 3") }
edge_style KubeEdgeKind.allows = record { color = codes "#f43f5e"; dash = none }
edge_style KubeEdgeKind.runs_as = record { color = codes "#c084fc"; dash = some (codes "4 3") }
edge_style KubeEdgeKind.binds = record { color = codes "#d946ef"; dash = some (codes "4 3") }
edge_style KubeEdgeKind.grants = record { color = codes "#e879f9"; dash = some (codes "4 3") }

abbrev pub group_colors : List Text
group_colors =
    codes "#6366f1"
    ∷ codes "#22c55e"
    ∷ codes "#f59e0b"
    ∷ codes "#3b82f6"
    ∷ codes "#ec4899"
    ∷ codes "#14b8a6"
    ∷ codes "#f97316"
    ∷ codes "#8b5cf6"
    ∷ []

-- `GROUP_COLORS[index % GROUP_COLORS.length]`.
unfoldable pub get_group_color : ℕ → Option Text
get_group_color index = get_elem? group_colors (index % length group_colors)

abbrev style_at : List (Text × KindStyle) → Text → Option KindStyle
style_at [] kind = none
style_at ((k, s) ∷ ss) kind = if k == kind then some s else style_at ss kind

-- `upper` is `toUpperCase`.
unfoldable pub kind_style : (Text → Text) → Text → KindStyle
kind_style upper kind = elim (style_at kind_styles kind) [
  | none ↦ style (upper (take 3 kind)) (codes "#8b8fa7")
  | some s ↦ s
]
