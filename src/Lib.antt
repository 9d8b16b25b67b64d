-- ===== src/Lib.antt =====
-- The composition dynamic controller: the reconciler that turns a composition, a custom resource, into
-- a helm release with just the rights that the release needs.
--
-- A composition is reconciled by four operations of `internal/composition/composition.go`. `Observe`
-- compares the release with what an upgrade would give, `Create` installs it, `Update` writes the
-- status and starts or ends a graceful pause, `Delete` uninstalls it. Before helm runs, the chart
-- inspector is asked which resources the chart holds (`internal/chartinspector`), a policy is generated
-- for them (`internal/rbacgen`) and applied or removed through the dynamic client
-- (`internal/tools/rbac`). The release is decoded and digested (`internal/tools/processor`,
-- `internal/tools/hasher`), and the objects of its manifest are listed in the status
-- (`internal/composition/support.go`). Labels and annotations are those of `pkg/meta/meta.go`.
--
-- A file models a part of the program; the modules below it hold what is proved of it, its `Tests`
-- concrete runs.
--
-- - Common: lists, maps, texts, and the monad of calls. A call reads and changes a world `W` outside
--   the program and ends with a result, an error or a panic (a nil pointer followed, an index out of
--   range). `fmt.Errorf` with `%w` keeps the error inside, so that `IsNotFound` sees it.
-- - Kube: objects as far as the controller reads them, and `Runtime`, the functions of
--   unstructured-runtime, plumbing and apimachinery on them.
-- - Meta: `pkg/meta/meta.go`, each function under its own name.
-- - Tracer: `internal/tools/tracer/tracer.go`; the state is the list of resources recorded.
-- - Rbac: `rbac.go`; Rbac.Client: the dynamic client and the assumption that it is a store without
--   other writers, any call of which may fail; Rbac.Installer: `installer.go`. Its apply and
--   delete operations share three bodies: replace (namespaces and bindings), merge (roles), delete.
-- - ChartInspector: `chartinspector.go`, over the HTTP and JSON libraries as `Http`.
-- - RbacGen: `rbacgen.go`.
-- - Processor and Processor.Hasher: `processor.go`, `types.go`, `hasher.go`; the YAML decoder is a
--   parameter. Manifests are bytes, the hash is 64 bits wide with its wrap-around written out.
-- - Archive: the data and the static getter of `internal/tools/archive/getter.go`; Archive.Dynamic: the
--   getter that finds the composition definition by its labels or by a search.
-- - Metrics: `internal/metrics/metrics.go`, its instruments and the methods that record on them;
--   Metrics.Instruments and Metrics.Setup: how they are made, and the global instance;
--   Metrics.Timed: `helm.go` and `wrappers.go`. OpenTelemetry and the clock are the record
--   `Telemetry`; Metrics.Counting states what a pipeline is assumed to count.
-- - Composition.Env: what the handler is given; Composition.Support: `support.go`,
--   `internal/condition/condition.go` and `IsNamespaced` of `internal/tools/dynamic/dynamic.go`;
--   Composition.Observe, Create, Update and Delete: the four operations, split where the code has its
--   sections. Steps that they share stand in Composition.Steps. Composition.History: sequences of
--   them. The `Keeping` modules say which properties of the world a part keeps, and by which calls.
-- - Startup: the flags of `main.go`; Startup.Main: `main`, over the libraries as `Host`.
--
-- All loops are structural recursion over the list that the code ranges over, so no fuel is needed. Go
-- ranges over the map of roles in any order: the list in a policy stands for one such order, and it is
-- arbitrary.
--
-- Not modelled: logging, the profiler and deep copies; the locks around the global metrics, since calls
-- run one at a time; the content of helm charts, which is helm's.
pub mod Common
pub mod Kube
pub mod Meta
pub mod Tracer
pub mod Rbac
pub mod ChartInspector
pub mod RbacGen
pub mod Processor
pub mod Archive
pub mod Metrics
pub mod Composition
pub mod Startup
