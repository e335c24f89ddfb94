-- ===== src/Tests/K8sutil.antt =====
-- Examples for pkg/k8sutil.
use jupyter_operator.Common.{
  pos, String, arith, if◌then◌else◌, ◌==◌, eq_refl, lookup, Option, none, some, [], ◌∷◌, ◌≡◌, ◌≢◌,
  eq_iff, refl, ap, ◌⊎◌, inl, inr,
}
use jupyter_operator.Prog.{value}
use jupyter_operator.Prog.Run.{run}
use jupyter_operator.Prog.Holds.{Holds}
use jupyter_operator.Kube.{Error, other, Result, ok, err, ObjectMeta, empty_meta}
use jupyter_operator.Kube.Resource.{Client, Lister}
use jupyter_operator.Kube.Objects.{Service, Secret, StatefulSet, Ingress}
use jupyter_operator.K8sutil.{not_managed_error, resource_name, add_owner_ref_to_object}
use jupyter_operator.K8sutil.Service.{calculate_service, create_or_update_service}
use jupyter_operator.K8sutil.Secret.Laws.{IsRenewal, Keeps, keep_certificates-own}
use jupyter_operator.K8sutil.Secret.{
  tls_cert_key, tls_private_key_key, keep_certificates, secret_object, create_or_update_secret,
}
use jupyter_operator.K8sutil.Ingress.{ingress_object, create_or_update_ingress}
use jupyter_operator.K8sutil.StatefulSet.{create_or_update_stateful_set, wait_for_stateful_set}
use jupyter_operator.K8sutil.Upsert.{Kind, service_kind, ingress_kind}
use jupyter_operator.K8sutil.Upsert.Laws.{IsMarked, is_managed_by_operator_iff}
use jupyter_operator.K8sutil.Upsert.Settles.{
  Face, service_face, ingress_face, IsServed, Settles, create_or_update_service-Settles,
  create_or_update_ingress-Settles,
}
use jupyter_operator.K8sutil.Upsert.Refuses.{Refuses, foreign_refused}
use jupyter_operator.K8sutil.Frame.{WasReady, wait_for_stateful_set-Holds}
use jupyter_operator.Controller.Wiring.Belonging.{notebook_labels-managed}
use jupyter_operator.Tests.World.{
  World, demo, full_demo, absent, ready_set, retry_once, text_crypto, demo_controller, Allowed,
  retry_once-IsFaithful, demo-Bounds, writing_client,
}

-- A cluster with room for one object.
abbrev conflict : Error
conflict = record { reason = other; text = "the object has been modified" }

-- It has one object, and refuses an update that does not say its resource version.
abbrev cell_client : {Obj : Type 0} → (Obj → String) → Client (Option Obj) Obj
cell_client version_of = record {
  create = λ o w. (none, some o);
  update = λ o w. elim w [
    | none ↦ (some absent, none)
    | some s ↦ if version_of o == version_of s then (none, some o) else (some conflict, some s)
  ];
  delete = λ name p w. (none, none);
}

abbrev found_in : {Obj : Type 0} → Option Obj → Result Obj
found_in none = err absent
found_in (some o) = ok o

abbrev cell_lister : {Obj : Type 0} → Lister (Option Obj) Obj
cell_lister = record { get = λ ns name w. found_in w }

cell_update :
    {Obj : Type 0} (version_of : Obj → String) (s y : Obj) (w : Option Obj)
    → w ≡ some s
    → version_of y ≡ version_of s
    → (cell_client version_of).update y w ≡ (none, some y)
cell_update version_of s y w there same = rw (there, same, eq_refl (version_of s))

cell-IsServed :
    {Obj : Type 0} (k : Kind Obj) (face : Face k) (x : Obj)
    → IsServed k face (cell_client (λ o. (k.meta_of o).resource_version)) cell_lister (λ w. w) x
cell-IsServed k face x = record {
  create_accepted = λ w missing fresh. (refl, (x, refl, refl, refl));
  update_accepted = λ s y w there name namespace version fixed.
      let written = cell_update (λ o. (k.meta_of o).resource_version) s y w there version in
      (ap (λ r. r.0) written, (y, ap (λ r. r.1) written, refl, refl));
}

abbrev demo_service : Service
demo_service = calculate_service demo

demo_service-IsMarked : IsMarked demo_service.meta
unfolding calculate_service add_owner_ref_to_object
demo_service-IsMarked =
    (is_managed_by_operator_iff demo_service.meta).0 (notebook_labels-managed "demo")

demo_service-fresh : demo_service.meta.resource_version ≡ ""
unfolding calculate_service add_owner_ref_to_object
demo_service-fresh = refl

abbrev demo_ingress : Ingress
demo_ingress = ingress_object full_demo "example.com"

demo_ingress-fresh : demo_ingress.meta.resource_version ≡ ""
unfolding add_owner_ref_to_object
demo_ingress-fresh = refl

abbrev demo_secret : Secret
demo_secret = secret_object full_demo []

abbrev service_client : Client (Option Service) Service
service_client = cell_client (λ (o : Service). o.meta.resource_version)

abbrev ingress_client : Client (Option Ingress) Ingress
ingress_client = cell_client (λ (o : Ingress). o.meta.resource_version)

-- What an earlier run has left, with a resource version and a cluster IP of the API server.
abbrev stored_service : Service
stored_service = record demo_service {
  meta = record demo_service.meta { resource_version = "41" };
  spec = record demo_service.spec { cluster_ip = "10.0.0.7" };
}

create_or_update_service-Settles_example :
    Settles service_kind service_face service_client cell_lister
      (λ w. w)
      demo_service
      (create_or_update_service service_client cell_lister demo_service)
      (some stored_service)
create_or_update_service-Settles_example =
    create_or_update_service-Settles (some stored_service) service_client cell_lister (λ w. w)
      demo_service (cell-IsServed service_kind service_face demo_service) demo_service-fresh
      (inr (stored_service, refl, refl, demo_service-IsMarked))

create_or_update_ingress-Settles_example :
    Settles ingress_kind ingress_face ingress_client cell_lister
      (λ w. w)
      demo_ingress
      (create_or_update_ingress ingress_client cell_lister demo_ingress)
      none
create_or_update_ingress-Settles_example =
    create_or_update_ingress-Settles none ingress_client cell_lister (λ w. w) demo_ingress
      (cell-IsServed ingress_kind ingress_face demo_ingress) demo_ingress-fresh
      (inl (refl, absent, refl, refl))

-- Objects with the label of another manager, and with no labels.
abbrev helm_meta : ObjectMeta
helm_meta = record empty_meta { labels = ("managed-by", "helm") ∷ [] }

abbrev showing : {Obj : Type 0} → Obj → Lister World Obj
showing o = record { get = λ ns name w. ok o }

abbrev foreign_service : Service
foreign_service = record demo_service { meta = helm_meta }

abbrev foreign_secret : Secret
foreign_secret = record { meta = empty_meta; contents = [] }

abbrev foreign_ingress : Ingress
foreign_ingress = record demo_ingress { meta = empty_meta }

abbrev demo_set : StatefulSet
demo_set = ready_set "default" "jupyter-notebook-demo"

unlabelled : ¬ IsMarked empty_meta
unfolding lookup
unlabelled h = cc

some_injective : {a b : String} → some a ≡ some b → a ≡ b
some_injective e = cc

helm-other : ◌≢◌ {A = String} "helm" "jupyter-operator"
helm-other = ground (arith, eq_iff "helm" "jupyter-operator")

helm-unmarked : ¬ IsMarked helm_meta
unfolding lookup
helm-unmarked h = helm-other (some_injective h)

foreign_refused_example :
    Refuses "*v1.Service"
      (create_or_update_service
        (writing_client (λ (o : Service). o.meta.name))
        (showing foreign_service)
        demo_service)
      []
    × Refuses "*v1.Secret"
        (create_or_update_secret text_crypto
          (writing_client (λ (o : Secret). o.meta.name))
          (showing foreign_secret)
          "ca"
          demo_secret)
        []
    × Refuses "*v1beta1.Ingress"
        (create_or_update_ingress
          (writing_client (λ (o : Ingress). o.meta.name))
          (showing foreign_ingress)
          demo_ingress)
        []
    × (run
          (create_or_update_stateful_set
            (showing demo_set)
            retry_once
            (writing_client (λ (o : StatefulSet). o.meta.name))
            (λ a b. [])
            demo_set)
          []
        ≡ (value (demo_set, some (not_managed_error "*v1.StatefulSet")), []))
foreign_refused_example =
    foreign_refused text_crypto "ca" retry_once (λ a b. []) []
      (writing_client (λ (o : Service). o.meta.name)) (showing foreign_service) demo_service
      (writing_client (λ (o : Secret). o.meta.name)) (showing foreign_secret) demo_secret
      (writing_client (λ (o : Ingress). o.meta.name)) (showing foreign_ingress) demo_ingress
      (writing_client (λ (o : StatefulSet). o.meta.name)) (showing demo_set) demo_set
      (foreign_service, refl, helm-unmarked) (foreign_secret, refl, unlabelled)
      (foreign_ingress, refl, unlabelled) (demo_set, refl, unlabelled)

wait_for_stateful_set-Holds_example :
    Holds Allowed ⊥
      (λ e. e ≡ none → WasReady demo_controller.stateful_set_lister demo_set ⊎ ⊥)
      (wait_for_stateful_set demo_controller.stateful_set_lister retry_once demo_set)
wait_for_stateful_set-Holds_example =
    wait_for_stateful_set-Holds Allowed ⊥ ⊥ demo-Bounds.reads demo_controller.stateful_set_lister
      retry_once (retry_once-IsFaithful Allowed) demo_set (pos 1) refl

set_named_demo : resource_name "demo" ≡ "jupyter-notebook-demo"
unfolding resource_name
set_named_demo = refl

-- A secret whose certificate the operator has signed, and a new one.
abbrev signed_secret : Secret
signed_secret = record {
  meta = empty_meta;
  contents = (tls_cert_key, some "old cert") ∷ (tls_private_key_key, some "old key") ∷ [];
}

abbrev renewed_secret : Secret
renewed_secret = record {
  meta = empty_meta;
  contents =
      (tls_cert_key, some "cert")
      ∷ (tls_private_key_key, some "key")
      ∷ ("password", some "new")
      ∷ [];
}

keep_certificates-own_example :
    Keeps text_crypto "ca" signed_secret renewed_secret
    ⊎ (¬ IsRenewal text_crypto "ca" signed_secret renewed_secret
        × (keep_certificates text_crypto "ca" signed_secret renewed_secret
            ≡ renewed_secret.contents))
keep_certificates-own_example = keep_certificates-own text_crypto "ca" signed_secret renewed_secret
