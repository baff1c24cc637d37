-- ===== src/Lib.antt =====
-- A model of weaver-kube, the deployer of Service Weaver applications on Kubernetes.
--
-- `weaver kube deploy` reads the components and listeners of an application's binary, forms groups
-- of components (`newDeployment`), builds the Kubernetes objects of each group and writes them,
-- with a ConfigMap, into one YAML file (`generateYAMLs`). In every pod of such a Deployment a
-- babysitter runs a group of components. It reads the configuration from the ConfigMap, and for
-- each component that the group calls it watches the pods of the component's group and tells the
-- group their addresses (`watchPods`). The two halves agree by names only: the names and labels of
-- the objects, and the maps `groups` and `listeners` of the babysitter's configuration.
--
-- The files, and what of the repository they model:
--   Base: shared types. Go strings are lists of bytes, a Go call returns an `Outcome` (a value, an
--     error or a panic), a Go map is an association list with one entry for each key. The order in
--     which `range` goes through a map is a parameter, `MapOrder`, of which it is known that it is
--     a rearrangement (`IsMapOrder`).
--   Names: `hash8`, `shortenComponent`, `deploymentName`, `configMapName` of
--     internal/impl/kube.go. SHA-256, the text of a UUID and the Unicode tables are the record
--     `Extern`; of them it is used that the text of a UUID has 36 characters.
--   Config: the types of internal/impl/config.go, and `deployment` and `listener` of
--     internal/impl/kube.go. The values of Kubernetes types that are only copied are abstract.
--   Listeners: `newListener` of internal/impl/kube.go. The package variable `externalPort` is
--     passed along, with its wrap-around at 32 bits.
--   Groups: `readComponentsAndListeners` and `newDeployment` of internal/impl/kube.go. Groups.View
--     counts what the groups hold, whatever the orders that are left to Go's maps, Groups.Specs says
--     which specs a group has, and Groups.View.Runs compares two runs.
--   Resources: `buildDeployment`, `buildListenerService`, `buildAutoscaler`, `buildContainer` and
--     `updateAffinitySpec` of internal/impl/kube.go.
--   Manifests: `generateRolesAndBindings`, `generateConfigMap`, `generateCoreYAMLs`, `header`,
--     `generateYAMLs` and `marshalResource` of internal/impl/kube.go, and `ToolVersion` of
--     internal/impl/version.go. What they call in other packages is the record `Tools`.
--     Manifests.Contents and Manifests.File are about a written file as a list of documents.
--   Babysitter: the messages of internal/impl/kube.proto and internal/impl/babysitter.go.
--     Babysitter.Start is `NewBabysitter`; Babysitter.Serve is `Serve` with its two goroutines, as a
--     function of the signals that they receive in any order; Babysitter.Claim is
--     `ActivateComponent` and the start of `watchPods`, with its critical section as a step relation
--     over any number of goroutines; Babysitter.Watch is its loop, as a function of the signals
--     that it receives; Babysitter.Handlers are the handlers of the weavelet's messages and the
--     filter of metrics.
--   Deploy: `Deploy` and `checkVersionCompatibility` of internal/impl/deploy.go; the text of the
--     new deployment id is an argument. What they call in other packages is the record `Host`; a
--     version is an abstract value with a test of equality.
--   Images: `buildAndUploadDockerImage` of internal/impl/docker.go, with the list of the commands
--     that it runs, and `cp` of internal/impl/util.go. What they call in other packages is the
--     record `Machine`.
--   Tool: the commands of internal/tool and `Run` of tool/tool.go. Tool.Mounts and Tool.Pods follow
--     the arguments and the files of a container into the `babysitter` command.
--   Telemetry: the plugins of examples/telemetry/main.go.
--   Echo: the component and the page of examples/echo (echo.go, main.go). Echo.Stubs are the stubs
--     of its weaver_gen.go, by which a call goes to a component in the same process or in another.
--     The encoding, the transport and `CatchPanics` of the weaver library are parameters.
--   Cluster: what the two halves do together: what a written file has for a component
--     and its listeners (Cluster.Hosting), how a babysitter finds the pods of one (Cluster.Routes), and a call from one
--     component to another (Cluster.Calls).
--   Tests: a small application on which the theorems are applied.
--
-- All loops are over lists, so there is no fuel. Lengths and counters are natural numbers; the
-- port counter alone is cut to 32 bits. A duration is a 64-bit number of nanoseconds, negative from
-- 2^63 on. A proof about the lock runs on fuel, the number of steps that the goroutines have left.
--
-- Not modelled: a panic in a plugin, which ends the process; the choice of the command and its flags (`Run` of the weaver library); the loggers
-- of a babysitter; the removal of the working directory of an image and the timeout of its build;
-- progress messages on the standard error and help texts; a failure of the HTTP server of
-- examples/telemetry; the flags, the registration of components, the health handler and the
-- instrumentation of examples/echo, which are calls of the weaver library; the code that protoc
-- generates for kube.proto. What a buffer holds when a function returns an error is not modelled,
-- since the program drops it.
pub mod Base
pub mod Names
pub mod Config
pub mod Listeners
pub mod Groups
pub mod Resources
pub mod Babysitter
pub mod Manifests
pub mod Deploy
pub mod Images
pub mod Tool
pub mod Telemetry
pub mod Echo
pub mod Cluster
pub mod Tests
