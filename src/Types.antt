-- ===== src/Types.antt =====
-- pkg/apis/jupyter/v1/types.go: the notebook resource, its defaults and its owner reference.
-- A Go pointer is an `Option`; the string types `NotebookTLS`, `NotebookFlavor` and `NotebookPhase`
-- are strings with named constants, as in Go.
pub mod Packages
pub mod Validate
pub mod Defaults
pub mod Json
pub mod Encoding
use jupyter_operator.Common.{
  ℤ, ℕ, String, Bool, true, false, Option, none, some, List, ◌||◌, is_none, if◌then◌else◌,
}
use jupyter_operator.Kube.{OwnerReference, ObjectMeta}
use jupyter_operator.Kube.Objects.{IngressBackend}

abbrev pub notebook_kind : String
notebook_kind = "Notebook"

abbrev pub notebook_plural : String
notebook_plural = "notebooks"

abbrev pub phase_pending : String
phase_pending = "Pending"

abbrev pub phase_running : String
phase_running = "Running"

abbrev pub phase_unknown : String
phase_unknown = "Unknown"

abbrev pub phase_failed : String
phase_failed = "Failed"

abbrev pub tls_self_signed : String
tls_self_signed = "self-signed"

abbrev pub tls_acme : String
tls_acme = "acme"

abbrev pub tls_none : String
tls_none = "none"

abbrev pub flavor_minimal : String
flavor_minimal = "minimal"

pub record NotebookSpec : Type 0 where
  pub flavor : Option String
  pub gpu : Bool
  pub host : Option String
  pub ingress : Option IngressBackend
  pub packages : List String
  pub password : Option String
  pub service_account_name : Option String
  pub tls : Option String

pub record NotebookStatus : Type 0 where
  pub observed_generation : ℤ
  pub phase : String

pub record Notebook : Type 0 where
  pub api_version : String
  pub kind : String
  pub meta : ObjectMeta
  pub spec : NotebookSpec
  pub status : NotebookStatus

-- `(n *Notebook) AsOwner`
unfoldable pub as_owner : Notebook → OwnerReference
as_owner n = record {
  api_version = n.api_version;
  kind = n.kind;
  name = n.meta.name;
  uid = n.meta.uid;
  block_owner_deletion = some true;
  controller = some true;
}

-- `if p == nil { p = &d }`
abbrev pub or_default {ℓ} : {A : Type ℓ} → Option A → A → Option A
or_default none d = some d
or_default (some a) d = some a

-- `(n *Notebook) SetDefaults`: the notebook after the call, and `changed`.
unfoldable pub set_defaults : Notebook → Notebook × Bool
set_defaults n = (
  record n {
    spec = record n.spec {
      flavor = or_default n.spec.flavor flavor_minimal;
      host = or_default n.spec.host "";
      password = or_default n.spec.password "";
      service_account_name = or_default n.spec.service_account_name "";
      tls = or_default n.spec.tls tls_self_signed;
    };
  },
  is_none n.spec.flavor
      || is_none n.spec.host
      || is_none n.spec.password
      || is_none n.spec.service_account_name
      || is_none n.spec.tls,
)
