-- ===== src/K8sutil/Secret.antt =====
-- pkg/k8sutil/secret.go
pub mod Laws
use jupyter_operator.Common.{
  ℕ, String, Bool, true, false, not, ◌==◌, ◌&&◌, Option, none, some, List, [], ◌∷◌, lookup, insert,
  is_some, if◌then◌else◌,
}
use jupyter_operator.Prog.{Outcome, value, panics, with_value, Prog, ret, call, read, ◌>>=◌}
use jupyter_operator.Kube.{Error, Result, ok, err, is_not_found, empty_meta}
use jupyter_operator.Kube.Resource.{Client, Lister, unset}
use jupyter_operator.Kube.Objects.{Secret}
use jupyter_operator.Types.{Notebook, tls_none, as_owner}
use jupyter_operator.Tls.{Crypto, new_signed_cert}
use jupyter_operator.K8sutil.{
  notebook_password_key, resource_name, is_managed_by_operator, notebook_labels,
  add_owner_ref_to_object, not_managed_error,
}

-- corev1.TLSCertKey and corev1.TLSPrivateKeyKey
abbrev pub tls_cert_key : String
tls_cert_key = "tls.crt"

abbrev pub tls_private_key_key : String
tls_private_key_key = "tls.key"

-- `p != nil && *p != ""`
abbrev pub nonempty : Option String → Bool
nonempty none = false
nonempty (some s) = not (s == "")

-- `p != nil && *p == s`
abbrev pub points_at : Option String → String → Bool
points_at none s = false
points_at (some t) s = t == s

unfoldable pub should_have_certs : Notebook → Bool
should_have_certs n = if points_at n.spec.tls tls_none then false else true

-- `altNames.DNSNames`
unfoldable pub host_names : Option String → List String
host_names none = []
host_names (some host) = if not (host == "") then host ∷ [] else []

abbrev pub alt_names : Notebook → List String
alt_names n = host_names n.spec.host

-- `if n.Spec.Password != nil && *n.Spec.Password != "" { … }`
unfoldable pub add_password :
    Option String → List (String × Option String) → List (String × Option String)
add_password none contents = contents
add_password (some password) contents =
    if not (password == "") then insert notebook_password_key (some password) contents else contents

abbrev pub with_password : Notebook → List (String × Option String) → List (String × Option String)
with_password n contents = add_password n.spec.password contents

-- `contents[k]`, nil where the key is missing.
abbrev pub entry : String → List (String × Option String) → Option String
entry k contents = elim (lookup k contents) [ none ↦ none | some bytes ↦ bytes ]

abbrev pub secret_object : Notebook → List (String × Option String) → Secret
secret_object n contents = record {
  meta =
      add_owner_ref_to_object
        (record empty_meta {
          name = resource_name n.meta.name;
          namespace = n.meta.namespace;
          labels = notebook_labels n.meta.name;
        })
        (as_owner n);
  contents = contents;
}

module _ {Certificate PrivateKey : Type 0} (tls : Crypto Certificate PrivateKey) where
  -- The two entries of a new certificate; the function panics if there is none.
  unfoldable pub signed_contents :
      Result (Certificate × PrivateKey) → Outcome (List (String × Option String))
  signed_contents (err e) = panics "failed to generate certificate"
  signed_contents (ok (cert, key)) = value (
      insert tls_private_key_key (some (tls.encode_private_key key))
        (insert tls_cert_key (some (tls.encode_certificate cert)) []))

  -- The data before the password, with certificates or not.
  unfoldable pub certificate_contents :
      ℕ → Notebook → Certificate → PrivateKey → Bool → Outcome (List (String × Option String))
  certificate_contents seed n ca_cert ca_key true =
      signed_contents (new_signed_cert tls seed ca_cert ca_key (alt_names n) n.meta.name)
  certificate_contents seed n ca_cert ca_key false = value []

  -- `seed` is the randomness that the certificate is drawn from.
  unfoldable pub calculate_secret : ℕ → Notebook → Certificate → PrivateKey → Outcome Secret
  unfolding certificate_contents signed_contents
  calculate_secret seed n ca_cert ca_key =
      with_value (certificate_contents seed n ca_cert ca_key (should_have_certs n))
        λ contents. secret_object n (with_password n contents)

  -- Whether a certificate parses and was signed by the operator's CA.
  unfoldable pub is_own_certificate : Certificate → Option String → Bool
  is_own_certificate ca_cert pem = elim (tls.parse_certificate pem) [
    | ok cert ↦ tls.signed_by cert ca_cert
    | err e ↦ false
  ]

  -- What follows the lookup of the old certificate.
  unfoldable pub kept_certificates :
      Certificate → Secret → Secret → Option (Option String) → List (String × Option String)
  kept_certificates ca_cert s secret none = secret.contents
  kept_certificates ca_cert s secret (some pem) =
      if is_some (entry tls_cert_key secret.contents) && is_own_certificate ca_cert pem
      then insert tls_private_key_key (entry tls_private_key_key s.contents)
          (insert tls_cert_key (entry tls_cert_key s.contents) secret.contents)
      else secret.contents

  -- The data that `CreateOrUpdateSecret` writes over the secret `s`: the certificate and the key of
  -- `s` where its certificate is the operator's own.
  unfoldable pub keep_certificates : Certificate → Secret → Secret → List (String × Option String)
  unfolding kept_certificates
  keep_certificates ca_cert s secret =
      kept_certificates ca_cert s secret (lookup tls_cert_key s.contents)

  module _ {W : Type 0} where
    unfoldable pub create_or_update_secret :
        Client W Secret → Lister W Secret → Certificate → Secret → Prog W (Option Error)
    create_or_update_secret c l ca_cert secret = do
      found ← read (l.get secret.meta.namespace secret.meta.name)
      elim found [
        | err e ↦ if not (is_not_found e) then ret (some e) else call (c.create secret)
        | ok s ↦
            if not (is_managed_by_operator s.meta.labels)
            then ret (some (not_managed_error "*v1.Secret"))
            else call (
                c.update (record {
                  meta = record secret.meta { resource_version = s.meta.resource_version };
                  contents = keep_certificates ca_cert s secret;
                }))
      ]

module _ {W : Type 0} where
  unfoldable pub delete_secret : Client W Secret → Notebook → Prog W (Option Error)
  delete_secret c n = call (c.delete (resource_name n.meta.name) unset)
