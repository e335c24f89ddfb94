-- ===== src/Controller/Resources.antt =====
-- `reconcileNotebookResources` of pkg/controller/handlers.go: one goroutine for each reconciler.
use jupyter_operator.Common.{ℕ, concat, Option, none, some, List, [], ◌∷◌, map}
use jupyter_operator.Prog.{Outcome, value, panics, Prog, ret, crash, call, ◌>>=◌}
use jupyter_operator.Prog.Parallel.{Schedule, par_all}
use jupyter_operator.Kube.{Error, new_error, is_not_found, is_already_exists}
use jupyter_operator.Types.{Notebook}
use jupyter_operator.Controller.{Controller}
use jupyter_operator.Controller.Errors.{join_errors}
use jupyter_operator.Controller.Reconcilers.{Reconciler, reconcilers}

-- `joinErrors([]error{*err}, apierrors.IsNotFound, apierrors.IsAlreadyExists)`, where there is one.
unfoldable pub remaining : Option Error → Option Error
remaining none = none
remaining (some e) = join_errors (some e ∷ []) (is_not_found ∷ is_already_exists ∷ [])

module _ {W : Type 0} where
  abbrev pub wait_part : (r : Reconciler W) → r.Captured → Prog W (Option Error)
  wait_part r captured = elim r.wait [ none ↦ ret none | some wait ↦ wait captured ]

  -- An error that is not ignored ends the goroutine; otherwise it waits.
  unfoldable pub unless_failed :
      (r : Reconciler W) → r.Captured → Option Error → Prog W (Option Error)
  unless_failed r captured (some e) = ret (some e)
  unless_failed r captured none = wait_part r captured

  -- What follows `r.reconcile()`.
  unfoldable pub after_reconcile :
      (r : Reconciler W) → r.Captured × Option Error → Prog W (Option Error)
  after_reconcile r done = unless_failed r done.0 (remaining done.1)

  -- The body of the goroutine: what it leaves in its slot of `errs`.
  unfoldable pub goroutine : Reconciler W → Prog W (Option Error)
  goroutine r = elim r.reconcile [
    | none ↦ wait_part r r.captured
    | some reconcile ↦ reconcile r.captured >>= after_reconcile r
  ]

-- The error of the function, wrapped with the name of the notebook.
unfoldable pub named_error : Notebook → Option Error → Option Error
named_error n none = none
named_error n (some e) = some (
    new_error (
      concat "failed to reconcile notebook resources for "
        (concat n.meta.name (concat ": " e.text))))

-- What the function returns for the errors of its goroutines.
unfoldable pub resources_error : Notebook → List (Option Error) → Option Error
unfolding named_error
resources_error n errs = named_error n (join_errors errs [])

module _ {W : Type 0} where
  -- `s` schedules the goroutines. A panic of a reconciler's construction ends the process.
  unfoldable pub run_reconcilers :
      (ℕ → Schedule) → Notebook → Outcome (List (Reconciler W)) → Prog W (Option Error)
  run_reconcilers s n (panics reason) = crash reason
  run_reconcilers s n (value rs) =
      par_all s (map goroutine rs) >>= λ errs. ret (resources_error n errs)

module _ {W Certificate PrivateKey : Type 0} (c : Controller W Certificate PrivateKey) where
  unfoldable pub reconcile_notebook_resources : (ℕ → Schedule) → Notebook → Prog W (Option Error)
  unfolding run_reconcilers
  reconcile_notebook_resources s n =
      call c.entropy >>= λ seed. run_reconcilers s n (reconcilers c seed n)
