-- ===== src/K8sutil/Upsert.antt =====
-- What the three plain `CreateOrUpdate` functions of pkg/k8sutil have in common, as one
-- specification: create what is missing, update what the operator manages, refuse the rest.
pub mod Laws
pub mod Settles
pub mod Refuses
use jupyter_operator.Common.{String, not, Option, some, ◌≡◌, refl, if◌then◌else◌}
use jupyter_operator.Prog.{Prog, ret, call, read, ◌>>=◌}
use jupyter_operator.Kube.{Error, Result, ok, err, is_not_found, ObjectMeta}
use jupyter_operator.Kube.Resource.{Client, Lister}
use jupyter_operator.Kube.Objects.{Service, Secret, Ingress}
use jupyter_operator.Tls.{Crypto}
use jupyter_operator.K8sutil.{is_managed_by_operator, not_managed_error}
use jupyter_operator.K8sutil.Service.{create_or_update_service}
use jupyter_operator.K8sutil.Secret.{keep_certificates, create_or_update_secret}
use jupyter_operator.K8sutil.Ingress.{create_or_update_ingress}

-- A kind of object: its metadata, its Go type, and what is written over an existing object.
pub record Kind (Obj : Type 0) : Type 0 where
  pub meta_of : Obj → ObjectMeta
  pub type_name : String
  pub merge : (existing desired : Obj) → Obj

module _ {W Obj : Type 0} (k : Kind Obj) (c : Client W Obj) (l : Lister W Obj) where
  -- What is done about the desired object, once the lister has answered.
  unfoldable pub settle : Obj → Result Obj → Prog W (Option Error)
  settle x found = elim found [
    | err e ↦ if not (is_not_found e) then ret (some e) else call (c.create x)
    | ok s ↦
        if not (is_managed_by_operator (k.meta_of s).labels)
        then ret (some (not_managed_error k.type_name))
        else call (c.update (k.merge s x))
  ]

  unfoldable pub upsert : Obj → Prog W (Option Error)
  upsert x = read (l.get (k.meta_of x).namespace (k.meta_of x).name) >>= settle x

-- The resource version, and what else an update takes over from the existing object.
abbrev pub service_kind : Kind Service
service_kind = record {
  meta_of = λ s. s.meta;
  type_name = "*v1.Service";
  merge = λ s svc. record {
    meta = record svc.meta { resource_version = s.meta.resource_version };
    spec = record svc.spec { cluster_ip = s.spec.cluster_ip };
  };
}

abbrev pub ingress_kind : Kind Ingress
ingress_kind = record {
  meta_of = λ i. i.meta;
  type_name = "*v1beta1.Ingress";
  merge =
      λ i ing. record ing { meta = record ing.meta { resource_version = i.meta.resource_version } };
}

abbrev pub secret_kind :
    {Certificate PrivateKey : Type 0} → Crypto Certificate PrivateKey → Certificate → Kind Secret
secret_kind tls ca_cert = record {
  meta_of = λ s. s.meta;
  type_name = "*v1.Secret";
  merge = λ s secret. record {
    meta = record secret.meta { resource_version = s.meta.resource_version };
    contents = keep_certificates tls ca_cert s secret;
  };
}

module _ {W : Type 0} where
  -- `CreateOrUpdateService` refines the specification: its update keeps the cluster IP.
  pub create_or_update_service-eq-upsert :
      (c : Client W Service) (l : Lister W Service) (svc : Service)
      → create_or_update_service c l svc ≡ upsert service_kind c l svc
  unfolding create_or_update_service upsert settle
  create_or_update_service-eq-upsert c l svc = refl

  -- `CreateOrUpdateIngress` refines it too.
  pub create_or_update_ingress-eq-upsert :
      (c : Client W Ingress) (l : Lister W Ingress) (ing : Ingress)
      → create_or_update_ingress c l ing ≡ upsert ingress_kind c l ing
  unfolding create_or_update_ingress upsert settle
  create_or_update_ingress-eq-upsert c l ing = refl

  -- `CreateOrUpdateSecret` refines it: its update keeps the operator's own certificate.
  pub create_or_update_secret-eq-upsert :
      {Certificate PrivateKey : Type 0} (tls : Crypto Certificate PrivateKey) (c : Client W Secret)
      (l : Lister W Secret) (ca_cert : Certificate) (secret : Secret)
      → create_or_update_secret tls c l ca_cert secret ≡ upsert (secret_kind tls ca_cert) c l secret
  unfolding create_or_update_secret upsert settle
  create_or_update_secret-eq-upsert tls c l ca_cert secret = refl
