-- ===== src/Kube.antt =====
-- The Kubernetes types that the operator builds and reads, with the fields that it uses
-- (k8s.io/apimachinery and the error values of its API). The packages themselves are not modelled.
pub mod Resource
pub mod Objects
use jupyter_operator.Common.{ℕ, String, Bool, true, false, Option, none, List, []}

-- What `apierrors.ReasonForError` says of an error. The errors of `errors.New` and `fmt.Errorf` have
-- no API status, and so `other`.
pub data Reason : Type 0 where
  not_found already_exists other : Reason

pub record Error : Type 0 where
  pub reason : Reason
  pub text : String

-- A Go result `(value, error)`.
pub data Result {ℓ} (A : Type ℓ) : Type ℓ where
  ok : A → Result A
  err : Error → Result A

-- errors.New and fmt.Errorf
abbrev pub new_error : String → Error
new_error s = record { reason = other; text = s }

-- apierrors.IsNotFound
abbrev pub is_not_found : Error → Bool
is_not_found e = elim e.reason [ not_found ↦ true | _ ↦ false ]

-- apierrors.IsAlreadyExists
abbrev pub is_already_exists : Error → Bool
is_already_exists e = elim e.reason [ already_exists ↦ true | _ ↦ false ]

pub record OwnerReference : Type 0 where
  pub api_version : String
  pub kind : String
  pub name : String
  pub uid : String
  pub block_owner_deletion : Option Bool
  pub controller : Option Bool

pub record ObjectMeta : Type 0 where
  pub name : String
  pub namespace : String
  pub uid : String
  pub resource_version : String
  pub deletion_timestamp : Option ℕ
  pub labels : List (String × String)
  pub annotations : List (String × String)
  pub owner_references : List OwnerReference

-- The zero value of `metav1.ObjectMeta`.
abbrev pub empty_meta : ObjectMeta
empty_meta = record {
  name = "";
  namespace = "";
  uid = "";
  resource_version = "";
  deletion_timestamp = none;
  labels = [];
  annotations = [];
  owner_references = [];
}

pub data IntOrString : Type 0 where
  int : ℕ → IntOrString
  str : String → IntOrString
