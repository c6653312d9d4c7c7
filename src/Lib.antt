-- ===== src/Lib.antt =====
-- Verification of image-assembler, a builder of operating-system images from osbuild v2 manifests.
--
-- A manifest names sources and pipelines of stages. It is parsed (manifest/parse.go), every stage
-- gets an ID from its content and from the stage before it (manifest/id.go, over the JSON text of
-- internal/jsonutil), Depsolve (manifest/depsolve.go) plans which pipelines to build and in which
-- order, given what the object store (store/) has already, and the builder then runs each stage in a
-- sandbox, talks to it and to services over sockets (ipc/, service/) and reports to a monitor
-- (monitor/). The registry (registry/) knows the modules and the runners.
--
-- The files, and the code each is about:
--   Base               tests, lists, Go maps, texts, integers, int64 arithmetic and Go's results
--   Value              the dynamic values that are passed as interface{}
--   Json               internal/jsonutil/pycompat.go: Marshal
--   Manifest.OrderedMap, Model, Ident   manifest/orderedmap.go, manifest.go, id.go
--   Manifest.Depsolve  manifest/depsolve.go
--   Manifest.Parse     manifest/parse.go: Defs, Devices, Loaders, Runners and Top, from the leaves
--                      to Parse itself
--   Manifest.Describe, Checkpoint   manifest/describe.go, manifest/checkpoint.go
--   Store.Size         store/size.go: ParseSize and calculateSpace
--   Store.Model, Evict, Cache, Objects   store/store.go and store/object.go: the state, the recorded
--                      size and eviction, and the operations
--   Build.Action, Pipeline, All   build/build.go: the state of a build, BuildPipeline and Build
--   Build.Output, Export   build/output.go, build/export.go
--   Build.Managers, Stage   build/device.go, build/mount.go, build/input.go; build/stage.go
--   Sandbox.Caps, Life, Command   sandbox/caps.go, sandbox/sandbox.go: capabilities, Open and Close, Run
--   Monitor.Context    monitor/context.go
--   Ipc.FdSet          ipc/fdset.go
--   Registry.Runners   registry/registry.go: parseRunnerName, ListRunners, DetectRunner
--   Service.Protocol   service/protocol.go
--   Service.Client, Manager   service/manager.go: CallWithFDs, and the manager of the services
--   Tests              runs, and the theorems at concrete data
-- A definition has the name of the function it models, in lower case with underscores; where the
-- name differs, a comment above it has the Go expression. Child modules hold proofs.
--
-- How Go is modelled. A Go map is the list of its entries in the order of one iteration; theorems
-- hold for every order. A slice whose elements are pointed to is modelled with its backing arrays
-- (Manifest.Model), and objects behind pointers with a heap (Store.Model). An error is a value of a
-- type of errors, a panic has a case of its own. Integers of 64 bits wrap, by way of the 64 bits of
-- two's complement; a float64 is its bit pattern. Texts that are taken apart are lists of code
-- points. The mutex of a store is not modelled: each call runs by itself, and other processes that
-- share the cache are left out.
--
-- Parameters stand for what is not the repository's code: SHA-256 and the formatting of floats
-- (Manifest.Ident), the registry's answers about modules (Manifest.Parse), the hash of a JSON text
-- (Monitor.Context), the permutation that sort.Slice chooses (Store.Evict), and which system calls
-- fail, the time, and the names and sizes of what is made (Store.Cache). RunStage is a parameter of a
-- build (Build.Action): what it returns, and the files that it leaves. Build.Stage models it by itself,
-- over an interface to the services and what the sandbox's run comes to. What fails, the time and what
-- RunStage returns depend on a tick, which counts the calls to the outside.
--
-- Fuel. The loop of Depsolve runs on fuel, since on a cycle it does not end; the fuel that is enough
-- is given with the theorem on its end. sortDevices stops by itself when a pass places no device; its
-- passes are counted down from the number of devices.
--
-- Not modelled: in the run of a stage (build/stage.go) the servers of the API and what is taken down
-- after it, bubblewrap and what it runs, the download of sources (build/source.go), the API socket
-- (api/), loop devices (loop/), the host tree, metadata files and times of a store, floating objects,
-- sockets, the processes of services themselves, output of the monitors, schemas, os-release, the
-- validation of manifests, and the command line (cmd/). Most of these are I/O around the parts above.
-- The manager of the services is modelled with its critical sections one after the other, and not
-- with two starts at once.
pub mod Base
pub mod Value
pub mod Json
pub mod Manifest
pub mod Store
pub mod Build
pub mod Sandbox
pub mod Monitor
pub mod Ipc
pub mod Registry
pub mod Service
pub mod Tests
