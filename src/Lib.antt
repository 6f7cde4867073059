-- ===== src/Lib.antt =====
-- Verification library of flux-k8s: Fluence, a scheduler plugin for Kubernetes that places groups of
-- pods by the Fluxion scheduler.
--
-- The program has three parts. A mutating webhook puts a group name and a size on pods and on the pod
-- templates of workloads. A controller creates a PodGroup for each group, moves it through its phases by
-- the phases of its pods and deletes it at the end. The scheduler plugin asks a sidecar for the nodes of
-- a whole group, gives each pod its node, lets pods wait until the group is complete, and cancels the
-- job once a pod of the group is over or deleted; the sidecar turns these requests into calls of
-- Fluxion.
--
--   * Base: texts, lists, maps, integers with wrap-around, runs that may fail or panic, decimals.
--   * Kube, Labels: the fields of Kubernetes objects that the code reads, and
--     sig-scheduler-plugins/pkg/fluence/labels/labels.go and apis/scheduling/v1alpha1/types.go.
--   * Messages: src/fluence/fluxcli-grpc/fluxcli.proto.
--   * Webhook: sig-scheduler-plugins/apis/scheduling/v1alpha1/podgroup_webhook.go; `handle` is Handle,
--     `default` is Default, `ensure_group` and its kin are EnsureGroup and its kin.
--   * Controller: sig-scheduler-plugins/pkg/controllers/podgroup_controller.go; `reconcile` is
--     Reconcile, Controller/Status is updateStatus and getCurrentPodStats, Controller/Watch is
--     ensurePodGroup and newPodGroup, and Controller/Program is Run of
--     sig-scheduler-plugins/cmd/controller/app/server.go. The server's answers are the record `Api`,
--     and an operation comes to the list of its calls with its result. Controller/Rounds repeats
--     reconciles on a server that keeps the status of a group as a subresource, and so drops the
--     status that a group is created with.
--   * Logger: sig-scheduler-plugins/pkg/logger/logger.go.
--   * Scheduler: sig-scheduler-plugins/pkg/fluence. Scheduler/World has what the plugin uses of other
--     code, with its documented laws; Scheduler/Groups is group/group.go and the lookups of
--     core/core.go; Scheduler/PodSpec is podspec/podspec.go; Scheduler/Flux is core/flux.go;
--     Scheduler/Manager is core/core.go; Scheduler/Plugin is fluence.go, with New and register.go in
--     Scheduler/Plugin/Start, its constant answers in Scheduler/Plugin/Answers and the calls of a run in
--     Scheduler/Plugin/Lifecycle.
--     Scheduler/Allocations is the abstract system of groups and jobs that the plugin implements, and
--     Scheduler/Program is main of sig-scheduler-plugins/cmd/scheduler/main.go.
--   * Sidecar: src/fluence. Sidecar/Jgf is jgf, Sidecar/Cluster is the rest of utils/utils.go, which
--     builds the graph from the nodes of the cluster, Sidecar/JobSpec is jobspec, Sidecar/Alloc is
--     ParseAllocResult of utils/utils.go, Sidecar/Fluxion is Match and Cancel of fluxion/fluxion.go,
--     and Sidecar/Program is InitFluxion, cmd/main.go and service/service.go. Sidecar/Cancelled and
--     Sidecar/Fluxion/Served join the plugin to this sidecar: what the plugin relies on, `IsFlux`,
--     follows from the code of the sidecar and from what the bindings of Fluxion promise, `IsReapi`;
--     the connection between the two is taken to lose no call and no answer.
--   * Admission: a pod's way from the webhook through the controller to the scheduler plugin.
--
-- The native integers of the source are integers whose operations wrap around (`int32`, `int64`); a
-- theorem that needs a sum in range says so. All loops are over lists or count to a number; only
-- the runs of a thread take the number of its pieces, and Scheduler/Manager/Thread/Ends shows that some
-- number is enough.
--
-- The threads of the plugin: Scheduler/Manager/Thread cuts PreFilter into pieces, each of what its
-- thread does under one hold of PodGroupManager's lock or in one call without it, and
-- Scheduler/Plugin/Interleaved lets the events of pods and the other calls come between the pieces,
-- with other answers of the cluster for each. The scheduler runs one PreFilter at a time, and a call
-- of the sidecar is answered at some time. Elsewhere an operation of the plugin, and each of the
-- controller and of the sidecar, is taken as one step, and the answers of the cluster stay the same
-- during it; Scheduler/Manager/Thread/Alone ties the two together.
--
-- In Scheduler/Plugin/Lifecycle a run of the plugin is any sequence of calls of its extension points that
-- end and of events of pods. A sidecar that panics is gone and answers no more; a restart of it, which
-- forgets all jobs, is not part of a run; Scheduler/Flux/Restart is about it. A restart of the scheduler
-- is a new plugin.
--
-- Not modelled: the printing of log lines to the console, the set-up inside the frameworks, and the code
-- that protoc generates. The texts of errors are shortened.
-- Libraries are parameters: go-cache, CycleState, informers, gRPC, resource quantities, the decoder of
-- admission requests, YAML, JSON, sort.Strings, path.Clean and the Go bindings of Fluxion.
pub mod Base
pub mod Kube
pub mod Logger
pub mod Labels
pub mod Messages
pub mod Webhook
pub mod Controller
pub mod Scheduler
pub mod Sidecar
pub mod Admission
