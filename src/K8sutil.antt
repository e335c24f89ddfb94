-- ===== src/K8sutil.antt =====
-- pkg/k8sutil/k8s.go: the names, labels and owner references of a notebook's objects. The file of
-- each kind of object is a module below this one.
pub mod Service
pub mod Secret
pub mod Ingress
pub mod StatefulSet
pub mod Retry
pub mod Upsert
pub mod Frame
use jupyter_operator.Common.{
  ℕ, String, Bool, true, false, ◌==◌, concat, Option, none, some, List, [], ◌∷◌, ◌++◌, lookup,
  insert, if◌then◌else◌,
}
use jupyter_operator.Kube.{Error, new_error, ObjectMeta, OwnerReference}

abbrev pub notebook_container_name : String
notebook_container_name = "notebook"

abbrev pub notebook_port : ℕ
notebook_port = 8888

abbrev pub notebook_port_name : String
notebook_port_name = "notebook-port"

abbrev pub notebook_password_key : String
notebook_password_key = "password"

abbrev pub notebook_tls_mount_path : String
notebook_tls_mount_path = "/var/lib/tls"

abbrev pub managed_by_operator_label : String
managed_by_operator_label = "managed-by"

abbrev pub managed_by_operator_label_value : String
managed_by_operator_label_value = "jupyter-operator"

abbrev pub notebook_label : String
notebook_label = "jupyter.squat.ai/notebook"

-- fmt.Sprintf(notebookImageTemplate, flavor)
abbrev pub image_name : String → String
image_name flavor = concat "jupyter/" (concat flavor "-notebook:latest")

-- fmt.Sprintf(notebookIngressTLSSecretNameTemplate, name)
abbrev pub ingress_tls_secret_name : String → String
ingress_tls_secret_name name = concat name "-tls"

unfoldable pub resource_name : String → String
resource_name name = concat "jupyter-notebook-" name

unfoldable pub add_managed_by_operator_labels : List (String × String) → List (String × String)
add_managed_by_operator_labels labels =
    insert managed_by_operator_label managed_by_operator_label_value labels

unfoldable pub is_managed_by_operator : List (String × String) → Bool
is_managed_by_operator labels = elim (lookup managed_by_operator_label labels) [
  | some value ↦ value == managed_by_operator_label_value
  | none ↦ false
]

unfoldable pub add_match_labels : List (String × String) → String → List (String × String)
add_match_labels labels name = insert notebook_label name labels

unfoldable pub notebook_labels : String → List (String × String)
notebook_labels name = add_match_labels (add_managed_by_operator_labels []) name

unfoldable pub add_owner_ref_to_object : ObjectMeta → OwnerReference → ObjectMeta
add_owner_ref_to_object o r = record o { owner_references = o.owner_references ++ r ∷ [] }

-- The error of the `CreateOrUpdate` functions for an object of the Go type `kind`.
abbrev pub not_managed_error : String → Error
not_managed_error kind =
    new_error (concat "refusing to adopt existing " (concat kind ": not managed by this operator"))
