-- ===== src/K8sutil/Service.antt =====
-- pkg/k8sutil/service.go
use jupyter_operator.Common.{String, not, Option, some, [], ◌∷◌, if◌then◌else◌}
use jupyter_operator.Prog.{Prog, ret, call, read, ◌>>=◌}
use jupyter_operator.Kube.{Error, ok, err, is_not_found, empty_meta}
use jupyter_operator.Kube.Resource.{Client, Lister, unset}
use jupyter_operator.Kube.Objects.{Service}
use jupyter_operator.Types.{Notebook, as_owner}
use jupyter_operator.K8sutil.{
  notebook_port, notebook_port_name, resource_name, is_managed_by_operator, add_match_labels,
  notebook_labels, add_owner_ref_to_object, not_managed_error,
}

abbrev pub tolerate_unready_endpoints_annotation : String
tolerate_unready_endpoints_annotation = "service.alpha.kubernetes.io/tolerate-unready-endpoints"

unfoldable pub calculate_service : Notebook → Service
calculate_service n = record {
  meta =
      add_owner_ref_to_object
        (record empty_meta {
          name = resource_name n.meta.name;
          namespace = n.meta.namespace;
          labels = notebook_labels n.meta.name;
          annotations = (tolerate_unready_endpoints_annotation, "true") ∷ [];
        })
        (as_owner n);
  spec = record {
    ports = record { name = notebook_port_name; port = notebook_port; protocol = "TCP" } ∷ [];
    selector = add_match_labels [] n.meta.name;
    type = "ClusterIP";
    cluster_ip = "";
  };
}

module _ {W : Type 0} where
  unfoldable pub create_or_update_service :
      Client W Service → Lister W Service → Service → Prog W (Option Error)
  create_or_update_service c l svc = do
    found ← read (l.get svc.meta.namespace svc.meta.name)
    elim found [
      | err e ↦ if not (is_not_found e) then ret (some e) else call (c.create svc)
      | ok s ↦
          if not (is_managed_by_operator s.meta.labels)
          then ret (some (not_managed_error "*v1.Service"))
          else call (
              c.update (record {
                meta = record svc.meta { resource_version = s.meta.resource_version };
                spec = record svc.spec { cluster_ip = s.spec.cluster_ip };
              }))
    ]

  unfoldable pub delete_service : Client W Service → Notebook → Prog W (Option Error)
  delete_service c n = call (c.delete (resource_name n.meta.name) unset)
