-- ===== src/Controller/Reconcilers.antt =====
-- pkg/controller/reconcilers.go: for each kind of object, what brings it to its desired state.
-- A notebook is never nil here: `reconcileNotebookResources` has read its name before.
use jupyter_operator.Common.{
  ℕ, String, Bool, true, false, ◌||◌, is_some, Option, none, some, List, [], ◌∷◌, if◌then◌else◌,
}
use jupyter_operator.Prog.{Outcome, value, panics, with_value, Prog, ret, ◌>>=◌}
use jupyter_operator.Kube.{Error}
use jupyter_operator.Kube.Objects.{Secret, StatefulSet, Ingress}
use jupyter_operator.Types.{Notebook, tls_acme}
use jupyter_operator.K8sutil.Service.{calculate_service, create_or_update_service, delete_service}
use jupyter_operator.K8sutil.Secret.{
  nonempty, points_at, should_have_certs, calculate_secret, create_or_update_secret, delete_secret,
}
use jupyter_operator.K8sutil.StatefulSet.{
  create_or_update_stateful_set, wait_for_stateful_set, delete_stateful_set,
}
use jupyter_operator.K8sutil.StatefulSet.Calculate.{calculate_stateful_set}
use jupyter_operator.K8sutil.Ingress.{
  calculate_ingress, create_or_update_ingress, wait_for_ingress_tls_secret, delete_ingress,
}
use jupyter_operator.Controller.{Controller}

-- `reconciler`. Its closures share the variable `captured`, which `reconcile` may write and `wait`
-- then reads; a nil function is `none`.
pub record Reconciler (W : Type 0) : Type 1 where
  pub Captured : Type 0
  pub captured : Captured
  pub reconcile : Option (Captured → Prog W (Captured × Option Error))
  pub resource_type : String
  pub wait : Option (Captured → Prog W (Option Error))

unfoldable pub service_should_exist : Notebook → Bool
service_should_exist n = if is_some n.meta.deletion_timestamp then false else true

unfoldable pub stateful_set_should_exist : Notebook → Bool
stateful_set_should_exist n = if is_some n.meta.deletion_timestamp then false else true

unfoldable pub ingress_should_exist : Notebook → Bool
ingress_should_exist n = if is_some n.meta.deletion_timestamp then false else nonempty n.spec.host

unfoldable pub secret_should_exist : Notebook → Bool
secret_should_exist n =
    if is_some n.meta.deletion_timestamp
    then false
    else nonempty n.spec.password || should_have_certs n

-- A closure that writes none of its variables.
abbrev pub keep : {W A : Type 0} → Prog W (Option Error) → A → Prog W (A × Option Error)
keep p a = p >>= λ e. ret (a, e)

-- A reconciler that deletes, and has nothing to wait for.
abbrev pub deleter : {W : Type 0} → String → Prog W (Option Error) → Reconciler W
deleter kind delete = record {
  Captured = Unit;
  captured = tt;
  reconcile = some (keep delete);
  resource_type = kind;
  wait = none;
}

-- A reconciler that brings the captured object to the cluster, and has nothing to wait for.
abbrev pub writer : {W Obj : Type 0} → String → Obj → (Obj → Prog W (Option Error)) → Reconciler W
writer {Obj} kind object write = record {
  Captured = Obj;
  captured = object;
  reconcile = some (λ o. keep (write o) o);
  resource_type = kind;
  wait = none;
}

-- The slice of the four, built in order: the first panic is the outcome.
unfoldable pub gather {ℓ} : {R : Type ℓ} → R → Outcome R → Outcome R → Outcome R → Outcome (List R)
gather a (panics reason) sts ing = panics reason
gather a (value b) (panics reason) ing = panics reason
gather a (value b) (value d) (panics reason) = panics reason
gather a (value b) (value d) (value e) = value (a ∷ b ∷ d ∷ e ∷ [])

module _ {W Certificate PrivateKey : Type 0} (c : Controller W Certificate PrivateKey) where
  unfoldable pub service_reconciler : Notebook → Reconciler W
  service_reconciler n =
      if service_should_exist n
      then writer "*v1.Service" (calculate_service n)
          (create_or_update_service (c.services n.meta.namespace) c.service_lister)
      else deleter "*v1.Service" (delete_service (c.services n.meta.namespace) n)

  unfoldable pub secret_writer : Notebook → Secret → Reconciler W
  secret_writer n secret =
      writer "*v1.Secret" secret
        (create_or_update_secret c.crypto (c.secrets n.meta.namespace) c.secret_lister c.ca_cert)

  unfoldable pub secret_reconciler : ℕ → Notebook → Outcome (Reconciler W)
  unfolding secret_writer
  secret_reconciler seed n =
      if secret_should_exist n
      then with_value (calculate_secret c.crypto seed n c.ca_cert c.ca_key) (secret_writer n)
      else value (deleter "*v1.Secret" (delete_secret (c.secrets n.meta.namespace) n))

  unfoldable pub stateful_set_writer : Notebook → StatefulSet → Reconciler W
  stateful_set_writer n sts = record {
    Captured = StatefulSet;
    captured = sts;
    reconcile = some (
        create_or_update_stateful_set c.stateful_set_lister c.retry
          (c.stateful_sets n.meta.namespace) c.vendor.template_diff);
    resource_type = "*v1.StatefulSet";
    wait = some (wait_for_stateful_set c.stateful_set_lister c.retry);
  }

  unfoldable pub stateful_set_reconciler : Notebook → Outcome (Reconciler W)
  unfolding stateful_set_writer
  stateful_set_reconciler n =
      if stateful_set_should_exist n
      then with_value (calculate_stateful_set n) (stateful_set_writer n)
      else value
          (deleter "*v1.StatefulSet" (delete_stateful_set (c.stateful_sets n.meta.namespace) n))

  -- With the TLS strategy "acme", wait for the secret that the ACME controller makes.
  unfoldable pub acme_wait : Notebook → Bool → Option (Ingress → Prog W (Option Error))
  acme_wait n true = some (λ _. wait_for_ingress_tls_secret c.retry c.secret_lister n)
  acme_wait n false = none

  unfoldable pub ingress_writer : Notebook → Ingress → Reconciler W
  ingress_writer n ing = record {
    Captured = Ingress;
    captured = ing;
    reconcile =
        some (λ i.
          keep (create_or_update_ingress (c.ingresses n.meta.namespace) c.ingress_lister i) i);
    resource_type = "*v1beta1.Ingress";
    wait = acme_wait n (points_at n.spec.tls tls_acme);
  }

  unfoldable pub ingress_reconciler : Notebook → Outcome (Reconciler W)
  unfolding ingress_writer acme_wait
  ingress_reconciler n =
      if ingress_should_exist n
      then with_value (calculate_ingress n) (ingress_writer n)
      else value (deleter "*v1beta1.Ingress" (delete_ingress (c.ingresses n.meta.namespace) n))

  -- The four of a notebook, in the order of the source; `seed` is the randomness of its certificate.
  unfoldable pub reconcilers : ℕ → Notebook → Outcome (List (Reconciler W))
  unfolding gather
  reconcilers seed n =
      gather (service_reconciler n) (secret_reconciler seed n) (stateful_set_reconciler n)
        (ingress_reconciler n)
