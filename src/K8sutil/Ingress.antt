-- ===== src/K8sutil/Ingress.antt =====
-- pkg/k8sutil/ingress.go
use jupyter_operator.Common.{
  String, not, concat, Option, none, some, List, [], ◌∷◌, insert, if◌then◌else◌,
}
use jupyter_operator.Prog.{Outcome, value, panics, Prog, ret, call, read, ◌>>=◌}
use jupyter_operator.Kube.{Error, ok, err, is_not_found, empty_meta, int}
use jupyter_operator.Kube.Resource.{Client, Lister, unset}
use jupyter_operator.Kube.Objects.{Secret, IngressBackend, IngressTls, Ingress}
use jupyter_operator.Types.{Notebook, tls_acme, as_owner}
use jupyter_operator.K8sutil.{
  notebook_port, ingress_tls_secret_name, resource_name, is_managed_by_operator, notebook_labels,
  add_owner_ref_to_object, not_managed_error,
}
use jupyter_operator.K8sutil.Secret.{points_at, should_have_certs}
use jupyter_operator.K8sutil.Retry.{Retry, wait_for}

-- The backend of the spec, or the notebook's own service.
unfoldable pub backend_from : Notebook → Option IngressBackend → IngressBackend
backend_from n (some backend) = backend
backend_from n none = record {
  service_name = resource_name n.meta.name;
  service_port = int notebook_port;
}

abbrev pub ingress_backend : Notebook → IngressBackend
ingress_backend n = backend_from n n.spec.ingress

abbrev pub ingress_host : Notebook → String → String
ingress_host n host = concat n.meta.name (concat "." host)

abbrev pub class_annotation : List (String × String)
class_annotation = ("kubernetes.io/ingress.class", "nginx") ∷ []

-- The annotations, in the order in which the function sets them.
unfoldable pub ingress_annotations : Notebook → List (String × String)
ingress_annotations n =
    if should_have_certs n
    then insert "nginx.ingress.kubernetes.io/ssl-redirect" "true" (
        insert "nginx.ingress.kubernetes.io/backend-protocol" "HTTPS" (
          if points_at n.spec.tls tls_acme
          then insert "kubernetes.io/tls-acme" "true" class_annotation
          else insert "nginx.ingress.kubernetes.io/ssl-passthrough" "true" class_annotation))
    else class_annotation

-- `ing.Spec.TLS`
unfoldable pub ingress_tls : Notebook → String → List IngressTls
ingress_tls n host =
    if should_have_certs n
    then record {
      hosts = ingress_host n host ∷ [];
      secret_name =
          if points_at n.spec.tls tls_acme
          then ingress_tls_secret_name (resource_name n.meta.name)
          else "";
    }
      ∷ []
    else []

abbrev pub ingress_object : Notebook → String → Ingress
ingress_object n host = record {
  meta =
      add_owner_ref_to_object
        (record empty_meta {
          name = resource_name n.meta.name;
          namespace = n.meta.namespace;
          labels = notebook_labels n.meta.name;
          annotations = ingress_annotations n;
        })
        (as_owner n);
  spec = record {
    rules =
        record {
          host = ingress_host n host;
          paths = record { path = "/"; backend = ingress_backend n } ∷ [];
        }
        ∷ [];
    tls = ingress_tls n host;
  };
}

-- `*n.Spec.Host`
unfoldable pub ingress_from : Notebook → Option String → Outcome Ingress
ingress_from n none = panics "nil pointer dereference"
ingress_from n (some host) = value (ingress_object n host)

unfoldable pub calculate_ingress : Notebook → Outcome Ingress
unfolding ingress_from
calculate_ingress n = ingress_from n n.spec.host

module _ {W : Type 0} where
  unfoldable pub create_or_update_ingress :
      Client W Ingress → Lister W Ingress → Ingress → Prog W (Option Error)
  create_or_update_ingress c l ing = do
    found ← read (l.get ing.meta.namespace ing.meta.name)
    elim found [
      | err e ↦ if not (is_not_found e) then ret (some e) else call (c.create ing)
      | ok i ↦
          if not (is_managed_by_operator i.meta.labels)
          then ret (some (not_managed_error "*v1beta1.Ingress"))
          else call (
              c.update (record ing {
                meta = record ing.meta { resource_version = i.meta.resource_version };
              }))
    ]

  -- One attempt of `WaitForIngressTLSSecret`.
  unfoldable pub ingress_secret_ready : Lister W Secret → Notebook → Prog W (Option Error)
  ingress_secret_ready l n = do
    found ← read (l.get n.meta.namespace (ingress_tls_secret_name (resource_name n.meta.name)))
    ret (elim found [ err e ↦ some e | ok s ↦ none ])

  unfoldable pub wait_for_ingress_tls_secret :
      Retry W → Lister W Secret → Notebook → Prog W (Option Error)
  wait_for_ingress_tls_secret retry l n = wait_for retry (ingress_secret_ready l n)

  unfoldable pub delete_ingress : Client W Ingress → Notebook → Prog W (Option Error)
  delete_ingress c n = call (c.delete (resource_name n.meta.name) unset)
