-- ===== src/Streams.antt =====
-- The hooks that follow a stream of the server: client/src/hooks/usePodLogs.ts, useLogs.ts,
-- usePodStats.ts and useStats.ts. What they emit on the socket is a list, oldest first; a number of
-- a sample of the statistics is a natural number.
pub mod Recent
mod Tests
use wiremap.Base.{
  ℕ, ◌-◌, Bool, true, false, ◌&&◌, Option, none, some, List, [], ◌∷◌, ◌++◌, length, drop, Text,
  codes, ◌==◌, text_eq, if◌then◌else◌,
}
use wiremap.Route.{is_truthy}
use wiremap.KubeTypes.{PodTarget, pod_target_key}

pub data LogType : Type 0 where
  stdout stderr : LogType

pub record LogEntry : Type 0 where
  pub container_id : Text
  pub type : LogType
  pub text : Text

pub record ContainerStats : Type 0 where
  pub cpu_percent : ℕ
  pub memory_usage : ℕ
  pub memory_limit : ℕ
  pub memory_percent : ℕ
  pub network_rx : ℕ
  pub network_tx : ℕ
  pub timestamp : Text

-- `slice(-n)`, for a positive `n`.
abbrev pub last_of {ℓ} : {A : Type ℓ} → ℕ → List A → List A
last_of n xs = drop (length xs - n) xs

-- `[...prev.slice(-n), x]`.
unfoldable pub push_recent {ℓ} : {A : Type ℓ} → ℕ → List A → A → List A
push_recent n prev x = last_of n prev ++ (x ∷ [])

-- What a hook subscribes to and unsubscribes from.
pub data Emitted : Type 0 where
  subscribe unsubscribe : PodTarget → Emitted

pub record PodLogs : Type 0 where
  pub target : Option PodTarget
  pub logs : List LogEntry
  pub emitted : List Emitted

abbrev pub key_of : Option PodTarget → Option Text
key_of none = none
key_of (some t) = some (pod_target_key t)

abbrev is_key : Option Text → Text → Bool
is_key none x = false
is_key (some k) x = x == k

abbrev pub same_key : Option Text → Option Text → Bool
same_key none none = true
same_key (some a) (some b) = a == b
same_key _ _ = false

abbrev pub left : Option PodTarget → List Emitted
left none = []
left (some t) = Emitted.unsubscribe t ∷ []

-- The effect, when the key has changed: the old target's clean-up, then the new one's start. Without
-- a target the old lines stay.
unfoldable pub start_logs : Option PodTarget → PodLogs → PodLogs
start_logs none s = record s { target = none; emitted = s.emitted ++ left s.target }
start_logs (some t) s = record {
  target = some t;
  logs = [];
  emitted = s.emitted ++ (left s.target ++ (Emitted.subscribe t ∷ []));
}

unfoldable pub retarget : Option PodTarget → PodLogs → PodLogs
unfolding start_logs
retarget next s = if same_key (key_of next) (key_of s.target) then s else start_logs next s

-- `handler` of `pod-logs:data`.
unfoldable pub on_log : LogEntry → PodLogs → PodLogs
unfolding push_recent
on_log entry s =
    if is_key (key_of s.target) entry.container_id
    then record s { logs = push_recent 999 s.logs entry }
    else s

abbrev pub error_entry : Text → Text → LogEntry
error_entry key message = record { container_id = key; type = LogType.stderr; text = message }

-- The listener of `pod-logs:error`.
unfoldable pub on_log_error : Text → Text → PodLogs → PodLogs
unfolding on_log
on_log_error key message s =
    if is_key (key_of s.target) key then on_log (error_entry key message) s else s

unfoldable pub clear : PodLogs → PodLogs
clear s = record s { logs = [] }

-- `useLogs`: the id of the container, and the listener of `logs:data`.
pub record Logs : Type 0 where
  pub container_id : Option Text
  pub logs : List LogEntry

unfoldable pub on_container_log : LogEntry → Logs → Logs
unfolding push_recent
on_container_log entry s =
    if is_key s.container_id entry.container_id
    then record s { logs = push_recent 999 s.logs entry }
    else s

pub record PodStats : Type 0 where
  pub target : Option PodTarget
  pub history : List ContainerStats
  pub current : Option ContainerStats
  pub error : Option Text

unfoldable pub start_stats : Option PodTarget → PodStats → PodStats
start_stats none s = record s { target = none }
start_stats (some t) s = record { target = some t; history = []; current = none; error = none }

unfoldable pub on_stats : Text → ContainerStats → PodStats → PodStats
unfolding push_recent
on_stats key stats s =
    if is_key (key_of s.target) key
    then record s { current = some stats; history = push_recent 59 s.history stats; error = none }
    else s

unfoldable pub on_stats_error : Text → Text → PodStats → PodStats
on_stats_error key message s =
    if is_key (key_of s.target) key then record s { error = some message } else s

-- `useStats`: the id of the container, and the listener of `stats:data`.
pub record Stats : Type 0 where
  pub container_id : Option Text
  pub history : List ContainerStats
  pub current : Option ContainerStats

abbrev is_given : Option Text → Bool
is_given none = false
is_given (some []) = false
is_given (some (c ∷ id)) = true

-- The effect of another container; without one, what is shown stays.
unfoldable pub subscribe_stats : Option Text → Stats → Stats
subscribe_stats id s =
    if is_given id
    then record { container_id = id; history = []; current = none }
    else record s { container_id = none }

unfoldable pub on_container_stats : Text → ContainerStats → Stats → Stats
unfolding push_recent
on_container_stats id stats s =
    if is_key s.container_id id
    then record s { current = some stats; history = push_recent 59 s.history stats }
    else s
