-- ===== src/Lib.antt =====
-- The client of Wiremap, client/src: a map of Docker containers and Kubernetes clusters in the
-- browser. This library models what the client keeps and decides, and proves what makes it correct.
--
-- The parts and how they interact. The page chooses a host or a cluster (useSources). The dashboard
-- of a cluster (KubeDashboard) holds what is selected and typed. It navigates through a route in
-- the hash of the address (useKubeNavigation), which kubeRoute writes and reads; a typed command is
-- resolved by kubeCommand to such a route; a listed kind comes page by page (useKubeObjects) and
-- becomes a graph; the canvas places the nodes of a graph by their depth (GraphCanvas); the sidebar
-- offers the kinds (KubeSidebar). Logs and statistics arrive over one socket (WireSocket). A
-- container's panel edits its environment (InspectView) and its files (VolumeBrowser). What a panel
-- shows is loaded by one of the small hooks (Loads), through the addresses of api.ts (Api); the
-- controls of a panel send actions (Actions).
--
-- Which file models which code, paths below client/src:
--   Base           shared lists, texts, sets and tests; a text is the list of its code points
--   Blank          white space, as `trim` and `\s` of the language know it
--   Uri            encodeURIComponent and decodeURIComponent of the language, exceptions included,
--                  URLSearchParams, and how a server reads a URL
--   KubeTypes      types/kubernetes.ts
--   Route          services/kubeRoute.ts: parseKubeHash is parse_kube_hash, toKubeHash to_kube_hash
--   Format         services/format.ts
--   Navigation     hooks/useKubeNavigation.ts: a state of the address bar and the route, an
--                  operation per callback, `sync` for the listener of hashchange
--   Socket         services/socket.ts: WireSocket as a state machine over the browser's events, with
--                  every socket that was ever made
--   Command        services/kubeCommand.ts
--   Objects        hooks/useKubeObjects.ts: the requests that wait are part of the state
--   Graphs         components/pages/kube_dashboard/KubeDashboard.vm.ts, kindGraph and visibleGraph
--   Dashboard      the same file, its state, its handlers and what it shows
--   HostDashboard  components/pages/dashboard/Dashboard.vm.ts
--   Hotkeys        hooks/useKubeHotkeys.ts
--   Sidebar        components/organisms/kube_sidebar/KubeSidebar.vm.ts
--   Depth          components/organisms/graph_canvas/GraphCanvas.vm.ts, ownershipDepth
--   Canvas         the same file: the columns, the layout, the positions that are saved, and the
--                  styles
--   Panels         components/organisms: pod_panel, resource_panel, manifest_view, container_panel,
--                  ports_volumes_view, network_view, kube_object_list and kube_events_view
--   LogLines       components/molecules/log_line/LogLine.vm.ts and
--                  components/organisms/log_viewer/LogViewer.vm.ts
--   EnvEditor      components/organisms/inspect_view/InspectView.vm.ts
--   Volumes        components/organisms/volume_browser/VolumeBrowser.vm.ts
--   DockerTypes    types/docker.ts, containers and networks
--   Containers     components/organisms/container_list/ContainerList.vm.ts
--   Topology       components/organisms/topology_canvas/TopologyCanvas.vm.ts
--   Polling        hooks/useKubeTopology.ts, useNetworks.ts and useContainers.ts
--   Loads          hooks/useKubePod.ts, useKubeResource.ts, useKubeKinds.ts, useKubeCounts.ts and
--                  useContainerInspect.ts: one effect, with a record of what differs
--   Resizing       hooks/useResizablePanel.ts and components/atoms/resize_handle/ResizeHandle.vm.ts
--   Api            services/api.ts: a request is its method, its address and its body
--   Actions        hooks/useKubeActions.ts, components/organisms/resource_actions and
--                  components/molecules/confirm_button
--   Sources        hooks/useSources.ts and components/molecules/source_select/SourceSelect.vm.ts
--   Streams        hooks/usePodLogs.ts, useLogs.ts, usePodStats.ts and useStats.ts, with their
--                  types of types/docker.ts
--
-- A function of the code has the same name in snake case here. React's state is a record, a setter
-- is an update of it, an effect is a function that the events call; asynchronous code is cut at its
-- requests, and the answer is an argument of the second half. What a call throws is a value.
--
-- Fuel: the loop of ownershipDepth runs on fuel, one round more than there are edges, which is
-- enough since each round but the last gives a depth along an edge that led nowhere new before;
-- `decimal` prints a number on fuel one more than the number. Every other loop is structural.
--
-- Arguments that stand for what the client does not implement: `toLowerCase` of a text, the age of a
-- timestamp, the order by localeCompare, the counts of a kind, the language's floating-point numbers
-- (of the layout), and what the server answers.
--
-- Not modelled: the server, which is written in Go; the rendering of the components and their
-- styles; drawing with d3, consoles and editors, which call third-party code; times of intervals
-- and timeouts, except for the delays of the socket; the arithmetic of floating-point numbers.
pub mod Base
pub mod Uri
pub mod KubeTypes
pub mod Route
pub mod Format
pub mod Navigation
pub mod Socket
pub mod Depth
pub mod Command
pub mod Blank
pub mod EnvEditor
pub mod Objects
pub mod Graphs
pub mod Hotkeys
pub mod Dashboard
pub mod Sidebar
pub mod Volumes
pub mod Streams
pub mod DockerTypes
pub mod Containers
pub mod Topology
pub mod Polling
pub mod Loads
pub mod Resizing
pub mod Api
pub mod Actions
pub mod Sources
pub mod Canvas
pub mod Panels
pub mod LogLines
pub mod HostDashboard
