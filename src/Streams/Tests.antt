-- ===== src/Streams/Tests.antt =====
-- Following a container of a pod.
use wiremap.Base.{◌≡◌, ◌≤◌, refl, none, some, List, [], ◌∷◌, Text, codes, same_text, length}
use wiremap.KubeTypes.{PodTarget, pod_target_key}
use wiremap.Streams.{
  ContainerStats, Emitted, LogEntry, LogType, PodLogs, last_of, on_container_log, on_stats,
  retarget, start_logs, start_stats,
}
use wiremap.Streams.Recent.{Arrival, arrive_all, lines_of, start_logs-last_of}

abbrev target : PodTarget
target = record {
  cluster = codes "prod";
  namespace = codes "shop";
  pod = codes "web";
  container = codes "app";
}

abbrev entry : Text → LogEntry
entry key = record { container_id = key; type = LogType.stdout; text = codes "hello" }

abbrev idle : PodLogs
idle = record { target = none; logs = []; emitted = [] }

abbrev sample : ContainerStats
sample = record {
  cpu_percent = 5;
  memory_usage = 1;
  memory_limit = 2;
  memory_percent = 50;
  network_rx = 0;
  network_tx = 0;
  timestamp = [];
}

steps :
    ((retarget none (retarget (some target) idle)).emitted
      ≡ Emitted.subscribe target ∷ Emitted.unsubscribe target ∷ [])
    × ((on_stats (codes "prod/shop/web/app") sample (
          start_stats
            (some target)
            (record { target = none; history = []; current = none; error = some [] }))).history
        ≡ sample ∷ [])
    × ((on_container_log
          (entry (codes "a1"))
          (record { container_id = some (codes "a1"); logs = [] })).logs
        ≡ entry (codes "a1") ∷ [])
unfolding retarget on_stats start_stats on_container_log same_text pod_target_key
steps = (refl, refl, refl)

abbrev arrivals : List Arrival
arrivals =
    Arrival.log (entry (codes "prod/shop/web/app"))
    ∷ Arrival.log (entry (codes "prod/shop/api/app"))
    ∷ Arrival.failure (codes "prod/shop/web/app") (codes "gone")
    ∷ []

start_logs-last_of_example :
    ((arrive_all arrivals (start_logs (some target) idle)).logs
      ≡ last_of 1000 (lines_of target arrivals))
    × (length (arrive_all arrivals (start_logs (some target) idle)).logs ≤ 1000)
start_logs-last_of_example = start_logs-last_of target idle arrivals
