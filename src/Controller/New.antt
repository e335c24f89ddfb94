-- ===== src/Controller/New.antt =====
-- `New` of pkg/controller/controller.go: the informers and listers of a controller.
use jupyter_operator.Common.{ℕ, String, List, [], insert}
use jupyter_operator.Kube.Resource.{Lister}
use jupyter_operator.Kube.Objects.{Service, Secret, StatefulSet, Ingress}
use jupyter_operator.Types.{Notebook}
use jupyter_operator.Controller.{Controller}
use jupyter_operator.Controller.Startup.{notebook_type}

-- `resyncPeriod`, in seconds.
abbrev pub resync_period : ℕ
resync_period = 300

pub record Config (Certificate PrivateKey : Type 0) : Type 0 where
  pub ca_cert : Certificate
  pub ca_key : PrivateKey
  pub kubeconfig : String
  pub namespace : String

-- `NewXInformer(client, namespace, resyncPeriod, indexer)` with the indexer by namespace, and
-- `NewXLister(informer.GetIndexer())`, for each kind of object.
pub record InformersOf (W Informer : Type 0) : Type 0 where
  pub new_notebook_informer : String → ℕ → Informer
  pub new_stateful_set_informer : String → ℕ → Informer
  pub new_secret_informer : String → ℕ → Informer
  pub new_service_informer : String → ℕ → Informer
  pub new_ingress_informer : String → ℕ → Informer
  pub new_notebook_lister : Informer → Lister W Notebook
  pub new_stateful_set_lister : Informer → Lister W StatefulSet
  pub new_secret_lister : Informer → Lister W Secret
  pub new_service_lister : Informer → Lister W Service
  pub new_ingress_lister : Informer → Lister W Ingress

-- `connected` is the controller with `client.New(cfg.Kubeconfig)`, its queue and the functions of other
-- packages. The second result is the map `informers`.
unfoldable pub new_controller :
    {W Certificate PrivateKey Informer : Type 0}
    → InformersOf W Informer
    → Config Certificate PrivateKey
    → (String → Controller W Certificate PrivateKey)
    → Controller W Certificate PrivateKey × List (String × Informer)
new_controller make cfg connected =
    let notebooks = make.new_notebook_informer cfg.namespace resync_period in
    let stateful_sets = make.new_stateful_set_informer cfg.namespace resync_period in
    let secrets = make.new_secret_informer cfg.namespace resync_period in
    let services = make.new_service_informer cfg.namespace resync_period in
    let ingresses = make.new_ingress_informer cfg.namespace resync_period in
    (
      record (connected cfg.kubeconfig) {
        ca_cert = cfg.ca_cert;
        ca_key = cfg.ca_key;
        notebook_lister = make.new_notebook_lister notebooks;
        stateful_set_lister = make.new_stateful_set_lister stateful_sets;
        secret_lister = make.new_secret_lister secrets;
        service_lister = make.new_service_lister services;
        ingress_lister = make.new_ingress_lister ingresses;
      },
      insert "*v1beta1.Ingress" ingresses (
          insert "*v1.Service" services (
            insert "*v1.Secret" secrets
              (insert "*v1.StatefulSet" stateful_sets (insert notebook_type notebooks [])))),
    )
