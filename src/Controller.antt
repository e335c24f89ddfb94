-- ===== src/Controller.antt =====
-- pkg/controller/controller.go: the state of a controller, and all that its methods call.
--
-- `Controller` has the clients and listers that the source's struct has, the CA of its `Config`, and
-- the functions of other packages that its methods use: they are the parameters of the development.
pub mod Errors
pub mod Reconcilers
pub mod Resources
pub mod Phase
pub mod Sync
pub mod Handlers
pub mod Queue
pub mod Crd
pub mod New
pub mod Timer
pub mod Startup
pub mod Wiring
pub mod Frame
use jupyter_operator.Common.{ℕ, String, Option, List}
use jupyter_operator.Kube.{Error, Result, ObjectMeta, OwnerReference}
use jupyter_operator.Kube.Resource.{Client, Lister}
use jupyter_operator.Kube.Objects.{PodTemplateSpec, Service, Secret, StatefulSet, Ingress}
use jupyter_operator.Types.{Notebook, NotebookSpec}
use jupyter_operator.Types.Validate.{Validation}
use jupyter_operator.Tls.{Crypto}
use jupyter_operator.K8sutil.Retry.{Retry}

-- `c.client.VersionedInterface().JupyterV1().Notebooks(namespace)`, as far as it is used.
pub record NotebookClient (W : Type 0) : Type 0 where
  pub update : Notebook → W → Option Error × W
  pub update_status : Notebook → W → Option Error × W

-- Functions of vendored packages that have no effect.
pub record Vendor : Type 0 where
  pub validation : Validation
  -- deep.Equal: the differences, nil where there are none
  pub spec_diff : NotebookSpec → NotebookSpec → List String
  pub template_diff : PodTemplateSpec → PodTemplateSpec → List String
  -- cache.SplitMetaNamespaceKey and cache.DeletionHandlingMetaNamespaceKeyFunc
  pub split_key : String → Result (String × String)
  pub notebook_key : Notebook → Result String
  -- metav1.GetControllerOf
  pub controller_of : ObjectMeta → Option OwnerReference

-- workqueue.RateLimitingInterface. `get` blocks until there is a key, and gives none after a shutdown.
pub record WorkQueue (W : Type 0) : Type 0 where
  pub get : W → Option String × W
  pub add : String → W → W
  pub add_rate_limited : String → W → W
  pub forget : String → W → W
  pub done : String → W → W
  pub shut_down : W → W

pub record Controller (W Certificate PrivateKey : Type 0) : Type 0 where
  pub ca_cert : Certificate
  pub ca_key : PrivateKey
  pub notebooks : String → NotebookClient W
  pub services : String → Client W Service
  pub secrets : String → Client W Secret
  pub stateful_sets : String → Client W StatefulSet
  pub ingresses : String → Client W Ingress
  pub notebook_lister : Lister W Notebook
  pub service_lister : Lister W Service
  pub secret_lister : Lister W Secret
  pub stateful_set_lister : Lister W StatefulSet
  pub ingress_lister : Lister W Ingress
  pub queue : WorkQueue W
  -- the random bits of one certificate, and the clock
  pub entropy : W → ℕ × W
  pub now : W → ℕ
  pub retry : Retry W
  pub crypto : Crypto Certificate PrivateKey
  pub vendor : Vendor
