-- ===== src/Types/Defaults.antt =====
-- What `SetDefaults` of pkg/apis/jupyter/v1/types.go does to a spec.
use jupyter_operator.Common.{String, false, Option, none, some, [], ◌≡◌, ◌≢◌, refl, ◌↔◌, arith}
use jupyter_operator.Types.{Notebook, NotebookSpec, or_default, set_defaults}
use jupyter_operator.Types.Validate.{Validation, validate, invalid_host, host_error}

-- The pointers that the rest of the operator dereferences with no test are set.
pub record IsComplete (s : NotebookSpec) : Type 0 where
  pub flavor_set : (x : String) × (s.flavor ≡ some x)
  pub host_set : (x : String) × (s.host ≡ some x)
  pub password_set : (x : String) × (s.password ≡ some x)
  pub account_set : (x : String) × (s.service_account_name ≡ some x)
  pub tls_set : (x : String) × (s.tls ≡ some x)

or_default_set {ℓ} : {A : Type ℓ} (o : Option A) (d : A) → (x : A) × (or_default o d ≡ some x)
or_default_set none d = (d, refl)
or_default_set (some a) d = (a, refl)

or_default-some {ℓ} : {A : Type ℓ} (o : Option A) (d x : A) → o ≡ some x → or_default o d ≡ some x
or_default-some none d x e = cc
or_default-some (some a) d x e = e

-- Whatever the notebook, after `SetDefaults` its flavor, host, password, service account and TLS
-- strategy are set.
pub set_defaults-IsComplete : (n : Notebook) → IsComplete (set_defaults n).0.spec
unfolding set_defaults
set_defaults-IsComplete n = record {
  flavor_set = or_default_set n.spec.flavor _;
  host_set = or_default_set n.spec.host _;
  password_set = or_default_set n.spec.password _;
  account_set = or_default_set n.spec.service_account_name _;
  tls_set = or_default_set n.spec.tls _;
}

-- What was set stays as it was, and the rest of the notebook is untouched.
pub record Extends (n m : Notebook) : Type 0 where
  pub flavor_kept : (x : String) → n.spec.flavor ≡ some x → m.spec.flavor ≡ some x
  pub host_kept : (x : String) → n.spec.host ≡ some x → m.spec.host ≡ some x
  pub password_kept : (x : String) → n.spec.password ≡ some x → m.spec.password ≡ some x
  pub account_kept :
      (x : String) → n.spec.service_account_name ≡ some x → m.spec.service_account_name ≡ some x
  pub tls_kept : (x : String) → n.spec.tls ≡ some x → m.spec.tls ≡ some x
  pub same_gpu : m.spec.gpu ≡ n.spec.gpu
  pub same_ingress : m.spec.ingress ≡ n.spec.ingress
  pub same_packages : m.spec.packages ≡ n.spec.packages
  pub same_kind : m.kind ≡ n.kind
  pub same_api_version : m.api_version ≡ n.api_version
  pub same_meta : m.meta ≡ n.meta
  pub same_status : m.status ≡ n.status

-- `SetDefaults` changes no field that was set, and nothing outside the spec.
pub set_defaults-Extends : (n : Notebook) → Extends n (set_defaults n).0
unfolding set_defaults
set_defaults-Extends n = record {
  flavor_kept = or_default-some n.spec.flavor _;
  host_kept = or_default-some n.spec.host _;
  password_kept = or_default-some n.spec.password _;
  account_kept = or_default-some n.spec.service_account_name _;
  tls_kept = or_default-some n.spec.tls _;
  same_gpu = refl;
  same_ingress = refl;
  same_packages = refl;
  same_kind = refl;
  same_api_version = refl;
  same_meta = refl;
  same_status = refl;
}

-- `SetDefaults` reports no change exactly when it leaves the notebook as it was.
pub set_defaults-unchanged_iff :
    (n : Notebook) → ((set_defaults n).1 ≡ false) ↔ ((set_defaults n).0 ≡ n)
unfolding set_defaults
set_defaults-unchanged_iff n = (λ h. ground arith, λ h. ground arith)

-- A second `SetDefaults` changes nothing and reports no change.
pub set_defaults_idem :
    (n : Notebook) → set_defaults (set_defaults n).0 ≡ ((set_defaults n).0, false)
unfolding set_defaults
set_defaults_idem n = ground arith

-- A notebook with no host is refused for its host once its defaults are set, where the empty text is
-- no DNS-1123 subdomain.
pub defaulted_host_invalid :
    (v : Validation) (n : Notebook)
    → n.spec.host ≡ none
    → v.is_dns1123_subdomain "" ≢ []
    → validate v (set_defaults n).0 ≡ some host_error
unfolding set_defaults validate invalid_host
defaulted_host_invalid v n h bad = ground arith
