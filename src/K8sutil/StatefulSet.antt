-- ===== src/K8sutil/StatefulSet.antt =====
-- pkg/k8sutil/statefulset.go: the StatefulSet of a notebook, created, adopted or replaced.
pub mod Calculate
use jupyter_operator.Common.{
  String, Bool, true, not, concat, int_decimal, int_eq, ℤ, Option, none, some, List, [], ◌∷◌, ℕ,
  if◌then◌else◌,
}
use jupyter_operator.Prog.{Prog, ret, crash, call, read, ◌>>=◌}
use jupyter_operator.Kube.{Error, Result, ok, err, new_error, is_not_found}
use jupyter_operator.Kube.Resource.{Client, Lister, unset, foreground}
use jupyter_operator.Kube.Objects.{PodTemplateSpec, StatefulSet}
use jupyter_operator.Types.{Notebook}
use jupyter_operator.K8sutil.{resource_name, is_managed_by_operator, not_managed_error}
use jupyter_operator.K8sutil.Retry.{Retry, wait_for}

abbrev pub deleting_error : Error → Error
deleting_error e = new_error (concat "failed to delete old StatefulSet before updating: " e.text)

abbrev pub waiting_error : Error → Error
waiting_error e = new_error (concat "failed waiting for StatefulSet to be deleted: " e.text)

abbrev pub not_ready_error : (ready wanted : ℤ) → Error
not_ready_error ready wanted = new_error (
    concat (concat "ready replicas is " (int_decimal ready))
      (concat ", waiting for ready replicas to be " (int_decimal wanted)))

-- The attempt of `WaitForStatefulSet`, once the lister has answered.
unfoldable pub ready_answer :
    {W : Type 0} → StatefulSet → Result StatefulSet → Prog W (Option Error)
ready_answer sts (err e) = ret (some e)
ready_answer sts (ok s) = elim sts.spec.replicas [
  | none ↦ crash "nil pointer dereference"
  | some wanted ↦
      if int_eq s.ready_replicas wanted
      then ret none
      else ret (some (not_ready_error s.ready_replicas wanted))
]

-- The attempt of `WaitForStatefulSetDeleted`, likewise.
unfoldable pub deleted_answer : Result StatefulSet → Option Error
deleted_answer (ok s) = some (new_error "waiting for StatefulSet to be deleted")
deleted_answer (err e) =
    if is_not_found e then none else some (new_error "waiting for StatefulSet to be deleted")

-- `sts` with the resource version and the spec of the existing `s`.
abbrev pub adopt : StatefulSet → StatefulSet → StatefulSet
adopt s sts = record sts {
  meta = record sts.meta { resource_version = s.meta.resource_version };
  spec = s.spec;
}

module _ {W : Type 0} (l : Lister W StatefulSet) (retry : Retry W) where
  unfoldable pub wait_for_stateful_set : StatefulSet → Prog W (Option Error)
  wait_for_stateful_set sts =
      wait_for retry (read (l.get sts.meta.namespace sts.meta.name) >>= ready_answer sts)

  unfoldable pub wait_for_stateful_set_deleted : StatefulSet → Prog W (Option Error)
  wait_for_stateful_set_deleted sts =
      wait_for retry (read (λ w. deleted_answer (l.get sts.meta.namespace sts.meta.name w)))

  module _ (c : Client W StatefulSet) where
    -- What follows the wait for the old StatefulSet to be gone.
    unfoldable pub create_again : StatefulSet → Option Error → Prog W (Option Error)
    create_again sts (some e) = ret (some (waiting_error e))
    create_again sts none = call (c.create sts)

    -- What follows its deletion.
    unfoldable pub await_deletion : StatefulSet → StatefulSet → Option Error → Prog W (Option Error)
    await_deletion s sts (some e) = ret (some (deleting_error e))
    await_deletion s sts none = wait_for_stateful_set_deleted s >>= create_again sts

    -- Delete the old StatefulSet `s`, wait until it is gone, and create `sts`.
    unfoldable pub replace_stateful_set : StatefulSet → StatefulSet → Prog W (Option Error)
    replace_stateful_set s sts = call (c.delete s.meta.name foreground) >>= await_deletion s sts

    -- The old StatefulSet `s` is adopted if its template has no difference to that of `sts`, and
    -- replaced otherwise.
    unfoldable pub settle_template :
        StatefulSet → StatefulSet → List String → Prog W (StatefulSet × Option Error)
    settle_template s sts [] = call (c.update (adopt s sts)) >>= λ e. ret (adopt s sts, e)
    settle_template s sts (diff ∷ diffs) = replace_stateful_set s sts >>= λ e. ret (sts, e)

    -- What is done about `sts` once the lister has answered: the StatefulSet that the pointer `sts`
    -- shows after the call, and the error. `template_diff` is `deep.Equal`, nil where there is no
    -- difference.
    unfoldable pub settle_stateful_set :
        (PodTemplateSpec → PodTemplateSpec → List String)
        → StatefulSet
        → Result StatefulSet
        → Prog W (StatefulSet × Option Error)
    settle_stateful_set template_diff sts (err e) =
        if not (is_not_found e)
        then ret (sts, some e)
        else call (c.create sts) >>= λ e'. ret (sts, e')
    settle_stateful_set template_diff sts (ok s) =
        if not (is_managed_by_operator s.meta.labels)
        then ret (sts, some (not_managed_error "*v1.StatefulSet"))
        else settle_template s sts (template_diff sts.spec.template s.spec.template)

    unfoldable pub create_or_update_stateful_set :
        (PodTemplateSpec → PodTemplateSpec → List String)
        → StatefulSet
        → Prog W (StatefulSet × Option Error)
    create_or_update_stateful_set template_diff sts =
        read (l.get sts.meta.namespace sts.meta.name) >>= settle_stateful_set template_diff sts

module _ {W : Type 0} where
  unfoldable pub delete_stateful_set : Client W StatefulSet → Notebook → Prog W (Option Error)
  delete_stateful_set c n = call (c.delete (resource_name n.meta.name) unset)
