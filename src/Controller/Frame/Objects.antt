-- ===== src/Controller/Frame/Objects.antt =====
-- The goroutines of the service, the secret and the ingress: in every execution they write only to
-- their object, and panic only where `retry.Retry` does.
use mathlib.Core.Bool.{false≢true}
use jupyter_operator.Common.{
  ℕ, String, Bool, true, false, Option, none, some, List, [], ◌≡◌, refl, ap, inl, inr, ◌⊎◌,
  Bool-cases, arith,
}
use jupyter_operator.Prog.{value, with_value, ret}
use jupyter_operator.Prog.Holds.{Holds, Holds-weaken}
use jupyter_operator.Kube.Objects.{Secret, Ingress}
use jupyter_operator.Types.{Notebook, tls_acme}
use jupyter_operator.K8sutil.{resource_name, add_owner_ref_to_object}
use jupyter_operator.K8sutil.Upsert.{
  service_kind, secret_kind, ingress_kind, create_or_update_service-eq-upsert,
  create_or_update_secret-eq-upsert, create_or_update_ingress-eq-upsert,
}
use jupyter_operator.K8sutil.Upsert.Laws.{upsert-Holds}
use jupyter_operator.K8sutil.Retry.{wait_for}
use jupyter_operator.K8sutil.Frame.{wait_for-Holds}
use jupyter_operator.K8sutil.Service.{calculate_service, create_or_update_service, delete_service}
use jupyter_operator.K8sutil.Secret.{
  points_at, nonempty, should_have_certs, alt_names, secret_object, with_password, signed_contents,
  certificate_contents, calculate_secret, create_or_update_secret, delete_secret,
}
use jupyter_operator.K8sutil.Ingress.{
  ingress_from, ingress_object, calculate_ingress, create_or_update_ingress, ingress_secret_ready,
  wait_for_ingress_tls_secret, delete_ingress,
}
use jupyter_operator.Controller.{Controller}
use jupyter_operator.Controller.Reconcilers.{
  Reconciler, keep, deleter, acme_wait, secret_writer, ingress_writer, service_should_exist,
  ingress_should_exist, secret_should_exist, service_reconciler, secret_reconciler,
  ingress_reconciler,
}
use jupyter_operator.Controller.Resources.{goroutine}
use jupyter_operator.Controller.Frame.Bounds.{Bounds}
use jupyter_operator.Controller.Frame.Goroutines.{
  Success, goroutine-Holds, keep-Holds, deleter-Holds, writer-Holds,
}

module _ {W Certificate PrivateKey : Type 0} (G : W → W → Type 0) (C L : Type 0)
    (c : Controller W Certificate PrivateKey) (n : Notebook)
    (bounds : Bounds G C L c n.meta.namespace n.meta.name) where
  pub service-Holds : Holds G C (Success G C Unit) (goroutine (service_reconciler c n))
  unfolding service_reconciler delete_service
  service-Holds = elim (Bool-cases (service_should_exist n)) [
    | inl live ↦ rw live (
        writer-Holds G C "*v1.Service" (calculate_service n)
          (create_or_update_service (c.services n.meta.namespace) c.service_lister)
          (rw (create_or_update_service-eq-upsert _ _ _) (
            upsert-Holds service_kind (c.services n.meta.namespace) c.service_lister G C
              (calculate_service n) bounds.reads
              (unfold calculate_service add_owner_ref_to_object in bounds.services) (λ s. refl))))
    | inr gone ↦ rw gone (
        deleter-Holds G C Unit "*v1.Service" _ (c.services n.meta.namespace) (λ o. o.meta.name)
          bounds.services tt)
  ]

  certificate_contents_total :
      (seed : ℕ) (certs : Bool)
      → (contents : List (String × Option String)) × (certificate_contents c.crypto seed n c.ca_cert
            c.ca_key certs
          ≡ value contents)
  unfolding certificate_contents signed_contents
  certificate_contents_total seed false = ([], refl)
  certificate_contents_total seed true =
      let (pair, signed) = bounds.signs seed (alt_names n) n.meta.name in
      (_, ap (signed_contents c.crypto) signed)

  calculate_secret_total :
      (seed : ℕ)
      → (s : Secret) × (calculate_secret c.crypto seed n c.ca_cert c.ca_key ≡ value s)
        × (s.meta.name ≡ resource_name n.meta.name)
  unfolding calculate_secret add_owner_ref_to_object
  calculate_secret_total seed =
      let (contents, made) = certificate_contents_total seed (should_have_certs n) in
      (
        secret_object n (with_password n contents),
        ap (λ o. with_value o (λ base. secret_object n (with_password n base))) made,
        refl,
      )

  pub secret-Holds :
      (seed : ℕ)
      → (r : Reconciler W) × (secret_reconciler c seed n ≡ value r)
        × Holds G C (Success G C Unit) (goroutine r)
  unfolding secret_reconciler delete_secret
  secret-Holds seed = elim (Bool-cases (secret_should_exist n)) [
    | inl live ↦
        let (s, calculated, named) = calculate_secret_total seed in
        (
          secret_writer c n s,
          rw (live, calculated),
          writer-Holds G C "*v1.Secret" s
              (create_or_update_secret c.crypto (c.secrets n.meta.namespace) c.secret_lister
                c.ca_cert)
              (rw (create_or_update_secret-eq-upsert _ _ _ _ _) (
                upsert-Holds (secret_kind c.crypto c.ca_cert) (c.secrets n.meta.namespace)
                  c.secret_lister G C s bounds.reads (rw named bounds.secrets) (λ s'. refl))),
        )
    | inr gone ↦ (
      deleter "*v1.Secret" (delete_secret (c.secrets n.meta.namespace) n),
      rw gone,
      deleter-Holds G C Unit "*v1.Secret" _ (c.secrets n.meta.namespace) (λ o. o.meta.name)
          bounds.secrets tt,
    )
  ]

  acme_wait-Holds :
      (ing : Ingress) (acme : Bool)
      → Holds G C
          (Success G C Unit)
          (elim (acme_wait c n acme) [ none ↦ ret none | some f ↦ f ing ])
  unfolding acme_wait wait_for_ingress_tls_secret ingress_secret_ready
  acme_wait-Holds ing false = λ h. tt
  acme_wait-Holds ing true =
      Holds-weaken G C (λ e. e ≡ none → Unit ⊎ L) (Success G C Unit)
        (wait_for c.retry (ingress_secret_ready c.secret_lister n))
        (wait_for-Holds G C L Unit c.retry _ bounds.faithful (λ w. (bounds.reads w, λ h. tt)))
        (λ e h p. tt)

  calculate_ingress_total :
      (host : Option String)
      → nonempty host ≡ true
      → (ing : Ingress) × (ingress_from n host ≡ value ing)
        × (ing.meta.name ≡ resource_name n.meta.name)
  unfolding ingress_from add_owner_ref_to_object
  calculate_ingress_total none h = absurd (false≢true h)
  calculate_ingress_total (some host) h = (ingress_object n host, refl, refl)

  host_of_ingress : ingress_should_exist n ≡ true → nonempty n.spec.host ≡ true
  unfolding ingress_should_exist
  host_of_ingress h = ground arith

  pub ingress-Holds :
      (r : Reconciler W) × (ingress_reconciler c n ≡ value r)
      × Holds G C (Success G C Unit) (goroutine r)
  unfolding ingress_reconciler calculate_ingress delete_ingress goroutine
  ingress-Holds = elim (Bool-cases (ingress_should_exist n)) [
    | inl live ↦
        let (ing, calculated, named) = calculate_ingress_total n.spec.host (host_of_ingress live) in
        (
          ingress_writer c n ing,
          rw (live, calculated),
          goroutine-Holds G C Unit (ingress_writer c n ing)
              (λ i.
                keep (create_or_update_ingress (c.ingresses n.meta.namespace) c.ingress_lister i) i)
              (λ i. Unit)
              (keep-Holds G C
                (create_or_update_ingress (c.ingresses n.meta.namespace) c.ingress_lister ing) ing
                (rw (create_or_update_ingress-eq-upsert _ _ _) (
                  upsert-Holds ingress_kind (c.ingresses n.meta.namespace) c.ingress_lister G C ing
                    bounds.reads (rw named bounds.ingresses) (λ i. refl))))
              (λ i h. acme_wait-Holds i (points_at n.spec.tls tls_acme)),
        )
    | inr gone ↦ (
      deleter "*v1beta1.Ingress" (delete_ingress (c.ingresses n.meta.namespace) n),
      rw gone,
      deleter-Holds G C Unit "*v1beta1.Ingress" _ (c.ingresses n.meta.namespace) (λ o. o.meta.name)
          bounds.ingresses tt,
    )
  ]
