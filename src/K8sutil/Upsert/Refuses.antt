-- ===== src/K8sutil/Upsert/Refuses.antt =====
-- What the `CreateOrUpdate` functions do about an object that is not the operator's.
use mathlib.Core.Path.{subst}
use jupyter_operator.Common.{String, Option, some, List, ◌≡◌, sym, ap, ◌∙◌}
use jupyter_operator.Prog.{value, Prog}
use jupyter_operator.Prog.Run.{run}
use jupyter_operator.Kube.{Error, ok, ObjectMeta}
use jupyter_operator.Kube.Resource.{Client, Lister}
use jupyter_operator.Kube.Objects.{PodTemplateSpec, Service, Secret, StatefulSet, Ingress}
use jupyter_operator.Tls.{Crypto}
use jupyter_operator.K8sutil.{not_managed_error}
use jupyter_operator.K8sutil.Retry.{Retry}
use jupyter_operator.K8sutil.Service.{create_or_update_service}
use jupyter_operator.K8sutil.Secret.{create_or_update_secret}
use jupyter_operator.K8sutil.Ingress.{create_or_update_ingress}
use jupyter_operator.K8sutil.StatefulSet.{settle_stateful_set, create_or_update_stateful_set}
use jupyter_operator.K8sutil.Upsert.{
  service_kind, ingress_kind, secret_kind, create_or_update_service-eq-upsert,
  create_or_update_ingress-eq-upsert, create_or_update_secret-eq-upsert,
}
use jupyter_operator.K8sutil.Upsert.Laws.{IsMarked, is_managed_by_operator-false, upsert_refuses}

-- The lister shows an object under that name whose label "managed-by" is missing or does not say
-- "jupyter-operator".
abbrev pub IsForeign :
    {W Obj : Type 0} → (Obj → ObjectMeta) → Lister W Obj → ObjectMeta → W → Type 0
IsForeign {Obj} meta_of l m w =
    (s : Obj) × (l.get m.namespace m.name w ≡ ok s) × ¬ IsMarked (meta_of s)

-- The program changes nothing, and reports that the object of the Go type `kind` is not managed.
abbrev pub Refuses : {W : Type 0} → String → Prog W (Option Error) → W → Type 0
Refuses kind p w = run p w ≡ (value (some (not_managed_error kind)), w)

module _ {W Certificate PrivateKey : Type 0} (tls : Crypto Certificate PrivateKey)
    (ca_cert : Certificate) (retry : Retry W)
    (diff : PodTemplateSpec → PodTemplateSpec → List String) (w : W) where
  foreign_set_refused :
      (c : Client W StatefulSet) (l : Lister W StatefulSet) (sts s : StatefulSet)
      → ¬ IsMarked s.meta
      → run (settle_stateful_set l retry c diff sts (ok s)) w
        ≡ (value (sts, some (not_managed_error "*v1.StatefulSet")), w)
  unfolding settle_stateful_set
  foreign_set_refused c l sts s foreign = rw (is_managed_by_operator-false s.meta foreign)

  -- Each of the four `CreateOrUpdate` functions, where its lister shows an object under the desired
  -- one's name whose label "managed-by" is missing or has another value than "jupyter-operator", makes
  -- no write at all and returns the error that the object is not managed.
  pub foreign_refused :
      (services : Client W Service) (service_lister : Lister W Service) (svc : Service)
      (secrets : Client W Secret) (secret_lister : Lister W Secret) (secret : Secret)
      (ingresses : Client W Ingress) (ingress_lister : Lister W Ingress) (ing : Ingress)
      (sets : Client W StatefulSet) (set_lister : Lister W StatefulSet) (sts : StatefulSet)
      → IsForeign (λ (s : Service). s.meta) service_lister svc.meta w
      → IsForeign (λ (s : Secret). s.meta) secret_lister secret.meta w
      → IsForeign (λ (s : Ingress). s.meta) ingress_lister ing.meta w
      → IsForeign (λ (s : StatefulSet). s.meta) set_lister sts.meta w
      → Refuses "*v1.Service" (create_or_update_service services service_lister svc) w
        × Refuses "*v1.Secret" (create_or_update_secret tls secrets secret_lister ca_cert secret) w
        × Refuses "*v1beta1.Ingress" (create_or_update_ingress ingresses ingress_lister ing) w
        × (run (create_or_update_stateful_set set_lister retry sets diff sts) w
            ≡ (value (sts, some (not_managed_error "*v1.StatefulSet")), w))
  unfolding create_or_update_stateful_set
  foreign_refused services l₁ svc secrets l₂ secret ingresses l₃ ing sets l₄ sts h₁ h₂ h₃ h₄ = (
    subst (λ p. Refuses "*v1.Service" p w)
        (sym (create_or_update_service-eq-upsert services l₁ svc))
        (upsert_refuses service_kind services l₁ svc w h₁.0 h₁.1
          (is_managed_by_operator-false h₁.0.meta h₁.2)),
    subst (λ p. Refuses "*v1.Secret" p w)
        (sym (create_or_update_secret-eq-upsert tls secrets l₂ ca_cert secret))
        (upsert_refuses (secret_kind tls ca_cert) secrets l₂ secret w h₂.0 h₂.1
          (is_managed_by_operator-false h₂.0.meta h₂.2)),
    subst (λ p. Refuses "*v1beta1.Ingress" p w)
        (sym (create_or_update_ingress-eq-upsert ingresses l₃ ing))
        (upsert_refuses ingress_kind ingresses l₃ ing w h₃.0 h₃.1
          (is_managed_by_operator-false h₃.0.meta h₃.2)),
    ap (λ found. run (settle_stateful_set l₄ retry sets diff sts found) w) h₄.1
        ∙ foreign_set_refused sets l₄ sts h₄.0 h₄.2,
  )
