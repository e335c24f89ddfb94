-- ===== src/K8sutil/Secret/Laws.antt =====
-- What an update of a secret keeps of the old one.
use mathlib.Core.Bool.{false≢true}
use jupyter_operator.Common.{
  String, true, ◌==◌, is_some, Option, none, some, ◌≡◌, ◌≢◌, refl, sym, ◌∙◌, ap, lookup,
  lookup-insert, if◌then◌else◌, ◌⊎◌, inl, inr, Option-cases, Bool-cases,
}
use jupyter_operator.Kube.{Result, ok, err}
use jupyter_operator.Kube.Objects.{Secret}
use jupyter_operator.Tls.{Crypto}
use jupyter_operator.K8sutil.Secret.{
  tls_cert_key, tls_private_key_key, entry, is_own_certificate, kept_certificates,
  keep_certificates,
}

some_injective : {A : Type 0} {a b : A} → some a ≡ some b → a ≡ b
some_injective e = cc

some_not_none : {A : Type 0} {a : A} → some a ≢ none
some_not_none e = cc

module _ {Certificate PrivateKey : Type 0} (tls : Crypto Certificate PrivateKey)
    (ca_cert : Certificate) (s secret : Secret) where
  kept-own :
      (pem : Option String) (k : String)
      → is_some (entry tls_cert_key secret.contents) ≡ true
      → is_own_certificate tls ca_cert pem ≡ true
      → lookup k (kept_certificates tls ca_cert s secret (some pem)) ≡ (
          if tls_private_key_key == k
          then some (entry tls_private_key_key s.contents)
          else if tls_cert_key == k
          then some (entry tls_cert_key s.contents)
          else lookup k secret.contents)
  unfolding kept_certificates
  kept-own pem k has own =
      rw (has, own)
        (lookup-insert tls_private_key_key k (entry tls_private_key_key s.contents) _
          ∙ ap
              (λ others.
                if tls_private_key_key == k
                then some (entry tls_private_key_key s.contents)
                else others)
              (lookup-insert tls_cert_key k (entry tls_cert_key s.contents) secret.contents))

  is_own-signed :
      (pem : Option String) (parsed : Result Certificate)
      → tls.parse_certificate pem ≡ parsed
      → is_own_certificate tls ca_cert pem ≡ true
      → (cert : Certificate) × (tls.parse_certificate pem ≡ ok cert)
        × (tls.signed_by cert ca_cert ≡ true)
  unfolding is_own_certificate
  is_own-signed pem (ok cert) e own = (cert, e, rw (e, is_own_certificate) at own)
  is_own-signed pem (err x) e own = absurd (false≢true (rw (e, is_own_certificate) at own))

  signed-is_own :
      (pem : Option String) (cert : Certificate)
      → tls.parse_certificate pem ≡ ok cert
      → tls.signed_by cert ca_cert ≡ true
      → is_own_certificate tls ca_cert pem ≡ true
  unfolding is_own_certificate
  signed-is_own pem cert e signed = rw (is_own_certificate, e) signed

  -- The old secret `s` has an entry for a certificate which parses and is signed by the CA, and the
  -- new one has a certificate.
  abbrev pub IsRenewal : Type 0
  IsRenewal =
      (pem : Option String) × (cert : Certificate) × (new_pem : String) × (lookup tls_cert_key
          s.contents
        ≡ some pem)
      × (tls.parse_certificate pem ≡ ok cert)
      × (tls.signed_by cert ca_cert ≡ true)
      × (entry tls_cert_key secret.contents ≡ some new_pem)

  -- It is such a renewal, and what is written has the old certificate and private key, and of every
  -- other key what the new secret has.
  abbrev pub Keeps : Type 0
  Keeps =
      IsRenewal
      × ((k : String)
          → lookup k (keep_certificates tls ca_cert s secret) ≡ (
              if tls_private_key_key == k
              then some (entry tls_private_key_key s.contents)
              else if tls_cert_key == k
              then some (entry tls_cert_key s.contents)
              else lookup k secret.contents))

  keep-found :
      (pem : Option String) (k : String)
      → lookup tls_cert_key s.contents ≡ some pem
      → is_some (entry tls_cert_key secret.contents) ≡ true
      → is_own_certificate tls ca_cert pem ≡ true
      → lookup k (keep_certificates tls ca_cert s secret) ≡ (
          if tls_private_key_key == k
          then some (entry tls_private_key_key s.contents)
          else if tls_cert_key == k
          then some (entry tls_cert_key s.contents)
          else lookup k secret.contents)
  unfolding keep_certificates
  keep-found pem k found has own =
      ap (λ answer. lookup k (kept_certificates tls ca_cert s secret answer)) found
      ∙ kept-own pem k has own

  IsRenewal-own :
      IsRenewal
      → (pem : Option String) × (lookup tls_cert_key s.contents ≡ some pem)
        × (is_some (entry tls_cert_key secret.contents) ≡ true)
        × (is_own_certificate tls ca_cert pem ≡ true)
  IsRenewal-own (pem, cert, new_pem, found, parsed, signed, has) =
      (pem, found, ap is_some has, signed-is_own pem cert parsed signed)

  -- What was not found, or is not to be kept.
  not_kept :
      (found : Option (Option String))
      → lookup tls_cert_key s.contents ≡ found
      → Keeps ⊎ (¬ IsRenewal × (keep_certificates tls ca_cert s secret ≡ secret.contents))
  unfolding keep_certificates kept_certificates
  not_kept none e = inr (
    λ renewal.
        let (pem, found, has, own) = IsRenewal-own renewal in
        absurd (some_not_none (sym found ∙ e)),
    ap (kept_certificates tls ca_cert s secret) e,
  )
  not_kept (some pem) e = elim (Option-cases (entry tls_cert_key secret.contents)) [
    | inl lacking ↦ inr (
      λ renewal.
          let (pem', found, has, own) = IsRenewal-own renewal in
          absurd (false≢true (rw lacking at has)),
      ap (kept_certificates tls ca_cert s secret) e ∙ rw lacking refl,
    )
    | inr (new_pem, has) ↦ elim (Bool-cases (is_own_certificate tls ca_cert pem)) [
      | inl own ↦
          let (cert, parsed, signed) = is_own-signed pem (tls.parse_certificate pem) refl own in
          inl (
            (pem, cert, new_pem, e, parsed, signed, has),
            λ k. keep-found pem k e (ap is_some has) own,
          )
      | inr alien ↦ inr (
        λ renewal.
            let (pem', found, has', own) = IsRenewal-own renewal in
            let same : pem' ≡ pem = some_injective (sym found ∙ e) in
            absurd (false≢true (sym alien ∙ ap (is_own_certificate tls ca_cert) (sym same) ∙ own)),
        ap (kept_certificates tls ca_cert s secret) e ∙ rw (has, alien) refl,
      )
    ]
  ]

  -- Either the old secret `s` has an entry for a certificate which parses and is signed by the
  -- operator's CA, and the new secret has a certificate: then what is written has the old certificate
  -- and the old private key, and of every other key what the new secret has. Or it is not so: then
  -- what is written is what the new secret has.
  pub keep_certificates-own :
      Keeps ⊎ (¬ IsRenewal × (keep_certificates tls ca_cert s secret ≡ secret.contents))
  keep_certificates-own = not_kept (lookup tls_cert_key s.contents) refl
