-- ===== src/Controller/Wiring/Secrets.antt =====
-- What the StatefulSet of a notebook reads of its secret.
use mathlib.Core.Path.{subst}
use jupyter_operator.Common.{
  ℕ, String, Bool, true, false, ◌==◌, is_some, Option, none, some, List, [], ◌≡◌, refl, lookup,
  insert, lookup-insert, lookup-insert_self, All, arith, Bool-cases, inl, inr,
}
use jupyter_operator.Prog.{value}
use jupyter_operator.Kube.{Result, ok, err}
use jupyter_operator.Kube.Objects.{Secret, StatefulSet, EnvVar, Volume, KeyToPath, Container}
use jupyter_operator.Types.{Notebook}
use jupyter_operator.Tls.{Crypto}
use jupyter_operator.K8sutil.{notebook_password_key, add_owner_ref_to_object}
use jupyter_operator.K8sutil.Secret.{
  nonempty, should_have_certs, add_password, with_password, secret_object, certificate_contents,
  signed_contents, calculate_secret, tls_cert_key, tls_private_key_key,
}
use jupyter_operator.K8sutil.StatefulSet.Calculate.{
  env_vars, volumes, container, pod_template, calculate_stateful_set,
}
use jupyter_operator.Controller.Reconcilers.{secret_should_exist}
use jupyter_operator.Controller.Wiring.Belonging.{
  value_inj, calculate_stateful_set-value, calculate_secret-value,
}

-- A key with bytes.
abbrev pub HasKey : List (String × Option String) → String → Type 0
HasKey contents key = (bytes : String) × (lookup key contents ≡ some (some bytes))

-- What a container reads of a secret is there, and so is what a volume mounts.
abbrev pub EnvProvided : Secret → EnvVar → Type 0
EnvProvided secret e = (e.secret_name ≡ secret.meta.name) × HasKey secret.contents e.secret_key

abbrev pub VolumeProvided : Secret → Volume → Type 0
VolumeProvided secret v =
    (v.secret_name ≡ secret.meta.name)
    × All (λ (i : KeyToPath). HasKey secret.contents i.key) v.items

abbrev pub SecretProvides : Secret → StatefulSet → Type 0
SecretProvides secret sts =
    All (λ (c : Container). All (EnvProvided secret) c.env) sts.spec.template.spec.containers
    × All (VolumeProvided secret) sts.spec.template.spec.volumes

password_key :
    (password : Option String) (base : List (String × Option String))
    → nonempty password ≡ true
    → HasKey (add_password password base) notebook_password_key
unfolding add_password
password_key none base h = cc
password_key (some password) base h =
    (password, rw h (lookup-insert_self notebook_password_key (some password) base))

other_key :
    (password : Option String) (base : List (String × Option String)) (key : String)
    → (notebook_password_key == key) ≡ false
    → HasKey base key
    → HasKey (add_password password base) key
unfolding add_password
other_key none base key ne h = h
other_key (some password) base key ne (bytes, found) = elim (Bool-cases (password == "")) [
  | inl empty ↦ rw empty (bytes, found)
  | inr set ↦ rw set (bytes, rw (lookup-insert, ne) found)
]

module _ {Certificate PrivateKey : Type 0} (tls : Crypto Certificate PrivateKey) (seed : ℕ)
    (n : Notebook) (ca_cert : Certificate) (ca_key : PrivateKey) where
  certificate_keys :
      (signed : Result (Certificate × PrivateKey)) (base : List (String × Option String))
      → signed_contents tls signed ≡ value base
      → HasKey base tls_cert_key × HasKey base tls_private_key_key
  unfolding signed_contents
  certificate_keys (err e) base h = cc
  certificate_keys (ok (cert, key)) base h =
      let made = value_inj h in
      subst (λ contents. HasKey contents tls_cert_key × HasKey contents tls_private_key_key) made
        (
          (tls.encode_certificate cert, unfold lookup insert in refl),
          (tls.encode_private_key key, unfold lookup insert in refl),
        )

  env_provided :
      (base : List (String × Option String))
      → All (EnvProvided (secret_object n (with_password n base))) (env_vars n)
  unfolding env_vars add_owner_ref_to_object
  env_provided base = elim (Bool-cases (nonempty n.spec.password)) [
    | inl set ↦ rw set ((refl, password_key n.spec.password base set), tt)
    | inr unset ↦ rw unset tt
  ]

  volumes_provided :
      (certs : Bool) (base : List (String × Option String))
      → should_have_certs n ≡ certs
      → certificate_contents tls seed n ca_cert ca_key certs ≡ value base
      → All (VolumeProvided (secret_object n (with_password n base))) (volumes n)
  unfolding volumes certificate_contents add_owner_ref_to_object
  volumes_provided false base e h = rw e tt
  volumes_provided true base e h =
      let (cert, key) = certificate_keys _ base h in
      rw e (
        (
          refl,
          (
            other_key n.spec.password base tls_cert_key refl cert,
            (other_key n.spec.password base tls_private_key_key refl key, tt),
          ),
        ),
        tt,
      )

  -- If neither calculation panics, the secret of a notebook has every key that its StatefulSet
  -- reads: the password of the container's environment, and the certificate and the private key of
  -- the mounted volume.
  pub secret_provides :
      (secret : Secret) (sts : StatefulSet)
      → calculate_secret tls seed n ca_cert ca_key ≡ value secret
      → calculate_stateful_set n ≡ value sts
      → SecretProvides secret sts
  unfolding calculate_stateful_set pod_template container
  secret_provides secret sts e e' =
      let (base, calculated, same) = calculate_secret-value tls seed n ca_cert ca_key secret e in
      let (f, a, same') = calculate_stateful_set-value n _ _ sts e' in
      subst (λ s. SecretProvides s sts) same
        (subst (λ s. SecretProvides (secret_object n (with_password n base)) s) same'
          ((env_provided base, tt), volumes_provided (should_have_certs n) base refl calculated))

-- If a live notebook has no secret of its own and its StatefulSet can be calculated, the
-- StatefulSet has no environment from a secret and no volume.
pub no_secret_no_reader :
    (n : Notebook) (sts : StatefulSet)
    → is_some n.meta.deletion_timestamp ≡ false
    → secret_should_exist n ≡ false
    → calculate_stateful_set n ≡ value sts
    → All (λ (c : Container). c.env ≡ []) sts.spec.template.spec.containers
      × (sts.spec.template.spec.volumes ≡ [])
unfolding calculate_stateful_set pod_template container secret_should_exist env_vars volumes
no_secret_no_reader n sts live none' e =
    let (f, a, same) = calculate_stateful_set-value n _ _ sts e in
    subst
      (λ (s : StatefulSet).
        All (λ (c : Container). c.env ≡ []) s.spec.template.spec.containers
        × (s.spec.template.spec.volumes ≡ []))
      same ((ground arith, tt), ground arith)
