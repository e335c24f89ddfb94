-- ===== src/Tls.antt =====
-- pkg/tls/tls.go: the CA and the certificates that it signs.
--
-- `Crypto` is what the code calls of bootkube's tlsutil, crypto/x509 and uuid. A call that draws
-- random bits takes them from its first argument.
use jupyter_operator.Common.{ℕ, String, Bool, Option, List, [], ◌∷◌}
use jupyter_operator.Kube.{Result, ok, err}

-- tlsutil.CertConfig with its AltNames.DNSNames
pub record CertConfig : Type 0 where
  pub common_name : String
  pub organization : List String
  pub organizational_unit : List String
  pub dns_names : List String

pub record Crypto (Certificate PrivateKey : Type 0) : Type 0 where
  pub new_private_key : ℕ → Result PrivateKey
  pub new_self_signed_ca_certificate : ℕ → CertConfig → PrivateKey → Result Certificate
  pub new_signed_certificate :
      ℕ → CertConfig → PrivateKey → Certificate → PrivateKey → Result Certificate
  pub new_uuid : ℕ → String
  pub encode_certificate : Certificate → String
  pub encode_private_key : PrivateKey → String
  -- tlsutil.ParsePEMEncodedCACert; nil is `none`
  pub parse_certificate : Option String → Result Certificate
  -- cert.CheckSignatureFrom(ca) == nil
  pub signed_by : Certificate → Certificate → Bool

abbrev pub organization : String
organization = "jupyter-operator"

infixl 5 ◌>>=◌
abbrev ◌>>=◌ : {A B : Type 0} → Result A → (A → Result B) → Result B
ok a >>= f = f a
err e >>= f = err e

module _ {Certificate PrivateKey : Type 0} (tls : Crypto Certificate PrivateKey) where
  unfoldable pub new_ca_cert : ℕ → Result (Certificate × PrivateKey)
  new_ca_cert seed = do
    key ← tls.new_private_key seed
    let config : CertConfig = record {
      common_name = "kube-ca";
      organization = organization ∷ [];
      organizational_unit = tls.new_uuid seed ∷ [];
      dns_names = [];
    }
    cert ← tls.new_self_signed_ca_certificate seed config key
    ok (cert, key)

  unfoldable pub new_signed_cert :
      ℕ → Certificate → PrivateKey → List String → String → Result (Certificate × PrivateKey)
  new_signed_cert seed ca_cert ca_key dns_names common_name = do
    key ← tls.new_private_key seed
    let config : CertConfig = record {
      common_name = common_name;
      organization = organization ∷ [];
      organizational_unit = [];
      dns_names = dns_names;
    }
    cert ← tls.new_signed_certificate seed config key ca_cert ca_key
    ok (cert, key)
