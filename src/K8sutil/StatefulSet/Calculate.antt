-- ===== src/K8sutil/StatefulSet/Calculate.antt =====
-- `CalculateStatefulSet` of pkg/k8sutil/statefulset.go.
use jupyter_operator.Common.{
  pos, String, true, not, ◌==◌, concat, Option, none, some, List, [], ◌∷◌, ◌++◌, if◌then◌else◌,
}
use jupyter_operator.Prog.{Outcome, value, panics}
use jupyter_operator.Kube.{empty_meta}
use jupyter_operator.Kube.Objects.{
  EnvVar, VolumeMount, Volume, Toleration, Container, PodTemplateSpec, StatefulSet,
}
use jupyter_operator.Types.{Notebook, as_owner}
use jupyter_operator.K8sutil.{
  notebook_container_name, notebook_port, notebook_port_name, notebook_password_key,
  notebook_tls_mount_path, image_name, resource_name, add_match_labels, notebook_labels,
  add_owner_ref_to_object,
}
use jupyter_operator.K8sutil.Secret.{nonempty, should_have_certs, tls_cert_key, tls_private_key_key}

-- The `PostStart` command, nil with no packages.
unfoldable pub lifecycle : List String → Option (List String)
lifecycle [] = none
lifecycle (p ∷ ps) = some (("conda" ∷ "install" ∷ "-y" ∷ []) ++ p ∷ ps)

-- `container.Env`
unfoldable pub env_vars : Notebook → List EnvVar
env_vars n =
    if nonempty n.spec.password
    then record {
      name = "PASSWORD";
      secret_name = resource_name n.meta.name;
      secret_key = notebook_password_key;
    }
      ∷ []
    else []

-- `container.Args` after its three appends.
unfoldable pub container_args : Notebook → List String
container_args n =
    let password =
      if nonempty n.spec.password then "--NotebookApp.password=\"$(PASSWORD)\"" ∷ [] else [] in
    let certificates =
      if should_have_certs n
      then concat (concat "--NotebookApp.certfile=" notebook_tls_mount_path) "/cert"
        ∷ concat (concat "--NotebookApp.keyfile=" notebook_tls_mount_path) "/key"
        ∷ []
      else [] in
    ("start-notebook.sh" ∷ "--NotebookApp.token=" ∷ []) ++ (password ++ certificates)

unfoldable pub volume_mounts : Notebook → List VolumeMount
volume_mounts n =
    if should_have_certs n
    then record { name = "tls"; read_only = true; mount_path = notebook_tls_mount_path } ∷ []
    else []

unfoldable pub volumes : Notebook → List Volume
volumes n =
    if should_have_certs n
    then record {
      name = "tls";
      default_mode = 420;
      items =
          record { key = tls_cert_key; path = "cert" }
          ∷ record { key = tls_private_key_key; path = "key" }
          ∷ [];
      secret_name = resource_name n.meta.name;
    }
      ∷ []
    else []

unfoldable pub tolerations : Notebook → List Toleration
tolerations n =
    if n.spec.gpu
    then record { key = "nvidia.com/gpu"; effect = "NoSchedule"; operator = "Exists" } ∷ []
    else []

unfoldable pub container : Notebook → String → Container
container n flavor = record {
  args = container_args n;
  image = image_name flavor;
  image_pull_policy = "Always";
  post_start = lifecycle n.spec.packages;
  name = notebook_container_name;
  ports =
      record { name = notebook_port_name; container_port = notebook_port; protocol = "TCP" } ∷ [];
  termination_message_path = "/dev/termination-log";
  termination_message_policy = "File";
  env = env_vars n;
  volume_mounts = volume_mounts n;
  limits = if n.spec.gpu then ("nvidia.com/gpu", 1) ∷ [] else [];
}

unfoldable pub pod_template : Notebook → String → String → PodTemplateSpec
pod_template n flavor account = record {
  labels = add_match_labels [] n.meta.name;
  spec = record {
    automount_service_account_token = some (not (account == ""));
    containers = container n flavor ∷ [];
    deprecated_service_account = account;
    dns_policy = "ClusterFirst";
    restart_policy = "Always";
    scheduler_name = "default-scheduler";
    security_context = some tt;
    service_account_name = account;
    termination_grace_period_seconds = some 120;
    tolerations = tolerations n;
    volumes = volumes n;
  };
}

abbrev pub stateful_set_object : Notebook → PodTemplateSpec → StatefulSet
stateful_set_object n pod = record {
  meta =
      add_owner_ref_to_object
        (record empty_meta {
          name = resource_name n.meta.name;
          namespace = n.meta.namespace;
          labels = notebook_labels n.meta.name;
        })
        (as_owner n);
  spec = record {
    replicas = some (pos 1);
    match_labels = add_match_labels [] n.meta.name;
    service_name = resource_name n.meta.name;
    template = pod;
  };
  ready_replicas = pos 0;
}

-- The two dereferences of the function, in its order.
unfoldable pub stateful_set_from : Notebook → Option String → Option String → Outcome StatefulSet
stateful_set_from n none account = panics "nil pointer dereference"
stateful_set_from n (some flavor) none = panics "nil pointer dereference"
stateful_set_from n (some flavor) (some account) =
    value (stateful_set_object n (pod_template n flavor account))

unfoldable pub calculate_stateful_set : Notebook → Outcome StatefulSet
unfolding stateful_set_from
calculate_stateful_set n = stateful_set_from n n.spec.flavor n.spec.service_account_name
