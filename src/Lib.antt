-- ===== src/Lib.antt =====
-- Verification of the Jupyter operator: a Kubernetes controller that keeps, for each notebook resource,
-- a Service, a Secret, a StatefulSet and an Ingress.
--
-- The program. An informer shows the notebooks and their objects; its events put a notebook's key on a
-- work queue (pkg/controller/handlers.go). A worker takes a key and calls `sync`
-- (pkg/controller/controller.go), which validates the notebook, writes its defaults back, and
-- otherwise brings the four objects to their desired state in one goroutine each
-- (pkg/controller/reconcilers.go, pkg/k8sutil). The phase of the notebook says how that went.
--
-- The files:
--   * Types and its modules: pkg/apis/jupyter/v1/types.go. `Notebook` is the struct, with an `Option`
--     for each pointer; `validate`, `set_defaults` and `as_owner` are its methods. Types/Packages has
--     the checks of one package, Types/Validate the method.
--   * Tls: pkg/tls/tls.go. K8sutil and its modules: the files of pkg/k8sutil, by the same names;
--     K8sutil/Upsert is the specification that three of the `CreateOrUpdate` functions share, and
--     K8sutil/Frame is about every execution of the functions that wait.
--   * Controller: the struct of pkg/controller/controller.go. Controller/Sync, Queue, Crd, Timer,
--     New and Startup are the rest of that file; Handlers, Resources, Phase and Errors are handlers.go, and
--     Reconcilers is reconcilers.go. Controller/Wiring relates the four objects of one notebook to
--     each other; Controller/Frame is about every execution of `sync`.
--   * Types/Json and Types/Encoding: the JSON of a notebook by the struct tags of types.go, and `Copy`.
--     DeepCopy: zz_generated.deepcopy.go beside it, in a memory with pointers; DeepCopy/Writes is
--     what a holder of a pointer may do with it. OpenApi: openapi_generated.go there. OpenApi/Table is
--     its table, in the files of OpenApi/Core and OpenApi/Meta each from one type on, in its order;
--     OpenApi/Conforms says what a definition means for a JSON value. Registration: the register.go
--     files.
--   * Clientset: the typed client of pkg/clientset/versioned/typed/jupyter/v1/notebook.go, as the REST
--     requests that it makes, and Listers: pkg/listers/jupyter/v1/notebook.go. Clientset/Refines puts
--     both in place of the controller's parameters. Clientset/Constructors: clientset.go and
--     jupyter_client.go of pkg/clientset. Clientset/Fake: fake_notebook.go, the client for tests.
--   * Informers: the shared informer factory of pkg/informers/externalversions/factory.go.
--     Informers/Notebooks: the informer of notebooks, and `ForResource` of generic.go.
--   * Prog: how code with effects is modelled. A `Prog W A` is a tree of atomic calls on a shared
--     world `W`. `run` runs one with nothing in between; `par` interleaves two under a schedule, as
--     goroutines; `Holds G C Q` says that each step of every execution changes the world as `G`
--     allows, whatever else changes it between the steps, that a panic comes only where `C`, and
--     that the result satisfies `Q`.
--   * Kube: the Kubernetes types with the fields that the operator uses. Common: shared names.
--   * Tests: examples on a small world.
--
-- Parameters. The clients, listers, the work queue, `retry.Retry`, the certificate functions,
-- `deep.Equal`, the key functions of client-go, the validation of host names, the clock and the
-- randomness are arguments, in the records `Client`, `Lister`, `WorkQueue`, `Crypto`,
-- `Validation`, `Vendor`, `Startup`, `RestClient`, `RestVendor`, `Cache`, `Tracker`, `Codecs`,
-- `TimeSchemas`, `Indexer` and `Controller`. What a theorem supposes of them is a named record:
-- `Bounds`, `NotebookBounds`, `RestBounds`, `StartBounds`, `ShowsDefaulted`, `IsFaithful`,
-- `IsServed`, `QueueDrains`, `InvertsFor`.
--
-- Of `retry.Retry`, `IsFaithful` supposes that it takes no step but those of its attempts and that a
-- last message without an error means that an attempt had none. Its messages may end with no last
-- one, since it sends them without waiting, and it may panic, since it may close a channel twice: the
-- parameters `L` and `C` stand for these cases. Of the API server, `IsServed` supposes optimistic
-- concurrency: an update is accepted where it has the stored resource version and keeps the immutable
-- field, and nothing else is said to refuse it.
--
-- In the controller an informer's object is a value, and a deep copy the value itself; DeepCopy is
-- about the memory of both. A Go string is a list of code points, and a map is an association list
-- with one entry per key. An int32 or int64 that the code copies, compares or prints is an integer `ℤ`
-- of any size and sign; the float32 of a configuration is an abstract type.
--
-- Fuel. `worker` has it for its endless loop, and Controller/Queue/Ends says how much is enough once
-- the queue is shut down. `conforms` has it for the depth of references, and 12 are enough by
-- OpenApi/Ends. The other loops are structural recursion.
--
-- Not modelled: logging; cmd/jupyter-operator and pkg/client, which connect the parts at the start;
-- `NewSimpleClientset` of the clients for tests, which registers reactors with a vendored tracker; the
-- descriptions in the OpenAPI definitions; and the vendored packages.
pub mod Common
pub mod Prog
pub mod Kube
pub mod Types
pub mod Registration
pub mod DeepCopy
pub mod OpenApi
pub mod Tls
pub mod K8sutil
pub mod Controller
pub mod Listers
pub mod Informers
pub mod Clientset
pub mod Tests
