-- ===== src/Kube/Objects.antt =====
-- The objects that the operator writes: Service, Secret, StatefulSet and Ingress, with the fields
-- that it sets or reads.
use jupyter_operator.Common.{ℤ, ℕ, String, Bool, Option, List}
use jupyter_operator.Kube.{ObjectMeta, IntOrString}

pub record ServicePort : Type 0 where
  pub name : String
  pub port : ℕ
  pub protocol : String

pub record ServiceSpec : Type 0 where
  pub ports : List ServicePort
  pub selector : List (String × String)
  pub type : String
  pub cluster_ip : String

pub record Service : Type 0 where
  pub meta : ObjectMeta
  pub spec : ServiceSpec

-- `none` in `contents` is a nil slice of bytes.
pub record Secret : Type 0 where
  pub meta : ObjectMeta
  pub contents : List (String × Option String)

pub record IngressBackend : Type 0 where
  pub service_name : String
  pub service_port : IntOrString

pub record HttpIngressPath : Type 0 where
  pub path : String
  pub backend : IngressBackend

pub record IngressRule : Type 0 where
  pub host : String
  pub paths : List HttpIngressPath

pub record IngressTls : Type 0 where
  pub hosts : List String
  pub secret_name : String

pub record IngressSpec : Type 0 where
  pub rules : List IngressRule
  pub tls : List IngressTls

pub record Ingress : Type 0 where
  pub meta : ObjectMeta
  pub spec : IngressSpec

pub record ContainerPort : Type 0 where
  pub name : String
  pub container_port : ℕ
  pub protocol : String

-- An environment variable whose value is a `SecretKeyRef`.
pub record EnvVar : Type 0 where
  pub name : String
  pub secret_name : String
  pub secret_key : String

pub record VolumeMount : Type 0 where
  pub name : String
  pub read_only : Bool
  pub mount_path : String

pub record KeyToPath : Type 0 where
  pub key : String
  pub path : String

-- A volume whose source is a secret.
pub record Volume : Type 0 where
  pub name : String
  pub default_mode : ℕ
  pub items : List KeyToPath
  pub secret_name : String

pub record Toleration : Type 0 where
  pub key : String
  pub effect : String
  pub operator : String

-- `post_start` is the command of `Lifecycle.PostStart.Exec`, `none` where `Lifecycle` is nil.
pub record Container : Type 0 where
  pub args : List String
  pub image : String
  pub image_pull_policy : String
  pub post_start : Option (List String)
  pub name : String
  pub ports : List ContainerPort
  pub termination_message_path : String
  pub termination_message_policy : String
  pub env : List EnvVar
  pub volume_mounts : List VolumeMount
  pub limits : List (String × ℕ)

-- `security_context` points at the empty `PodSecurityContext`.
pub record PodSpec : Type 0 where
  pub automount_service_account_token : Option Bool
  pub containers : List Container
  pub deprecated_service_account : String
  pub dns_policy : String
  pub restart_policy : String
  pub scheduler_name : String
  pub security_context : Option (Unit {0})
  pub service_account_name : String
  pub termination_grace_period_seconds : Option ℕ
  pub tolerations : List Toleration
  pub volumes : List Volume

pub record PodTemplateSpec : Type 0 where
  pub labels : List (String × String)
  pub spec : PodSpec

pub record StatefulSetSpec : Type 0 where
  pub replicas : Option ℤ
  pub match_labels : List (String × String)
  pub service_name : String
  pub template : PodTemplateSpec

pub record StatefulSet : Type 0 where
  pub meta : ObjectMeta
  pub spec : StatefulSetSpec
  pub ready_replicas : ℤ
