-- ===== src/Controller/Wiring/Belonging.antt =====
-- What the four calculated objects of a notebook have in common.
use mathlib.Core.Path.{subst}
use jupyter_operator.Common.{
  ℕ, String, true, Option, none, some, List, [], ◌∷◌, ◌≡◌, refl, lookup, insert, lookup-insert_self,
}
use jupyter_operator.Prog.{value}
use jupyter_operator.Prog.Run.{with_value-eq-value}
use jupyter_operator.Kube.{ObjectMeta, empty_meta}
use jupyter_operator.Kube.Objects.{Secret, StatefulSet, Ingress}
use jupyter_operator.Types.{Notebook, as_owner}
use jupyter_operator.Tls.{Crypto}
use jupyter_operator.K8sutil.{
  resource_name, notebook_labels, add_match_labels, add_managed_by_operator_labels, notebook_label,
  is_managed_by_operator, add_owner_ref_to_object,
}
use jupyter_operator.K8sutil.Service.{calculate_service}
use jupyter_operator.K8sutil.Secret.{
  should_have_certs, with_password, secret_object, certificate_contents, calculate_secret,
}
use jupyter_operator.K8sutil.StatefulSet.Calculate.{
  pod_template, stateful_set_object, stateful_set_from, calculate_stateful_set,
}
use jupyter_operator.K8sutil.Ingress.{ingress_object, ingress_from, calculate_ingress}

-- The metadata of an object that belongs to the notebook `n`.
pub record BelongsTo (n : Notebook) (m : ObjectMeta) : Type 0 where
  pub named : m.name ≡ resource_name n.meta.name
  pub placed : m.namespace ≡ n.meta.namespace
  pub managed : is_managed_by_operator m.labels ≡ true
  pub labelled : lookup notebook_label m.labels ≡ some n.meta.name
  pub owned : m.owner_references ≡ as_owner n ∷ []

pub notebook_labels-managed : (name : String) → is_managed_by_operator (notebook_labels name) ≡ true
unfolding is_managed_by_operator notebook_labels add_match_labels add_managed_by_operator_labels
    insert lookup
notebook_labels-managed name = refl

notebook_labels-labelled :
    (name : String) → lookup notebook_label (notebook_labels name) ≡ some name
unfolding notebook_labels add_match_labels
notebook_labels-labelled name = lookup-insert_self notebook_label name _

-- The metadata that every calculation builds, up to its annotations.
pub meta-BelongsTo :
    (n : Notebook) (annotations : List (String × String))
    → BelongsTo n (
        add_owner_ref_to_object
          (record empty_meta {
            name = resource_name n.meta.name;
            namespace = n.meta.namespace;
            labels = notebook_labels n.meta.name;
            annotations = annotations;
          })
          (as_owner n))
unfolding add_owner_ref_to_object
meta-BelongsTo n annotations = record {
  named = refl;
  placed = refl;
  managed = notebook_labels-managed n.meta.name;
  labelled = notebook_labels-labelled n.meta.name;
  owned = refl;
}

pub value_inj {ℓ} : {A : Type ℓ} {a b : A} → value a ≡ value b → a ≡ b
value_inj e = cc

-- Inversion: what a calculation that does not panic has returned.
pub calculate_stateful_set-value :
    (n : Notebook) (flavor account : Option String) (sts : StatefulSet)
    → stateful_set_from n flavor account ≡ value sts
    → (f : String) × (a : String) × (stateful_set_object n (pod_template n f a) ≡ sts)
unfolding stateful_set_from
calculate_stateful_set-value n none account sts e = cc
calculate_stateful_set-value n (some f) none sts e = cc
calculate_stateful_set-value n (some f) (some a) sts e = (f, a, cc)

pub calculate_ingress-value :
    (n : Notebook) (host : Option String) (ing : Ingress)
    → ingress_from n host ≡ value ing
    → (h : String) × (ingress_object n h ≡ ing) × (host ≡ some h)
unfolding ingress_from
calculate_ingress-value n none ing e = cc
calculate_ingress-value n (some h) ing e = (h, cc, refl)

module _ {Certificate PrivateKey : Type 0} (tls : Crypto Certificate PrivateKey) (seed : ℕ)
    (n : Notebook) (ca_cert : Certificate) (ca_key : PrivateKey) where
  pub calculate_secret-value :
      (secret : Secret)
      → calculate_secret tls seed n ca_cert ca_key ≡ value secret
      → (base : List (String × Option String)) × (certificate_contents tls seed n ca_cert ca_key
            (should_have_certs n)
          ≡ value base)
        × (secret_object n (with_password n base) ≡ secret)
  unfolding calculate_secret
  calculate_secret-value secret e =
      let (base, calculated, same) =
        with_value-eq-value (certificate_contents tls seed n ca_cert ca_key (should_have_certs n)) _
          e in
      (base, calculated, cc)

  -- The four calculated objects, where none of the calculations panics, have the notebook's resource
  -- name and namespace, labels by which the operator recognises them and finds the notebook, and the
  -- notebook as their only owner.
  pub calculated-BelongsTo :
      (secret : Secret) (sts : StatefulSet) (ing : Ingress)
      → calculate_secret tls seed n ca_cert ca_key ≡ value secret
      → calculate_stateful_set n ≡ value sts
      → calculate_ingress n ≡ value ing
      → BelongsTo n (calculate_service n).meta
        × BelongsTo n secret.meta
        × BelongsTo n sts.meta
        × BelongsTo n ing.meta
  unfolding calculate_service calculate_stateful_set calculate_ingress
  calculated-BelongsTo secret sts ing e₁ e₂ e₃ =
      let (base, calculated, same₁) = calculate_secret-value secret e₁ in
      let (f, a, same₂) = calculate_stateful_set-value n _ _ sts e₂ in
      let (h, same₃, host) = calculate_ingress-value n _ ing e₃ in
      (
        meta-BelongsTo n _,
        subst (λ (s : Secret). BelongsTo n s.meta) same₁ (meta-BelongsTo n []),
        subst (λ (s : StatefulSet). BelongsTo n s.meta) same₂ (meta-BelongsTo n []),
        subst (λ (i : Ingress). BelongsTo n i.meta) same₃ (meta-BelongsTo n _),
      )
