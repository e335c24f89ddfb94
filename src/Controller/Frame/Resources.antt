-- ===== src/Controller/Frame/Resources.antt =====
-- Every execution of `reconcileNotebookResources`, under every schedule of its goroutines.
use jupyter_operator.Common.{ℕ, Option, none, some, List, [], ◌∷◌, ◌≡◌, refl, ap, map, ◌↔◌, All}
use jupyter_operator.Prog.{value}
use jupyter_operator.Prog.Holds.{Holds, Holds-bind, Holds-par_all, Results}
use jupyter_operator.Prog.Parallel.{Schedule, par_all}
use jupyter_operator.Kube.{Error}
use jupyter_operator.Types.{Notebook}
use jupyter_operator.Controller.{Controller}
use jupyter_operator.Controller.Errors.Laws.{IsHarmless, join_errors-none_iff}
use jupyter_operator.Controller.Reconcilers.{
  Reconciler, service_reconciler, secret_reconciler, stateful_set_reconciler, ingress_reconciler,
  gather, reconcilers,
}
use jupyter_operator.Controller.Resources.{
  goroutine, named_error, resources_error, reconcile_notebook_resources,
}
use jupyter_operator.Controller.Frame.Bounds.{Bounds, IsBuildable, ServedIfLive}
use jupyter_operator.Controller.Frame.Goroutines.{Success}
use jupyter_operator.Controller.Frame.Objects.{service-Holds, secret-Holds, ingress-Holds}
use jupyter_operator.Controller.Frame.StatefulSets.{stateful_set-Holds}

IsHarmless-none : (e : Option Error) → IsHarmless [] e → e ≡ none
IsHarmless-none none h = refl
IsHarmless-none (some e) h = absurd h

none_each : (errs : List (Option Error)) → All (IsHarmless []) errs → All (λ e. e ≡ none) errs
none_each [] h = tt
none_each (e ∷ errs) (h, hs) = (IsHarmless-none e h, none_each errs hs)

IsHarmless-each : (errs : List (Option Error)) → All (λ e. e ≡ none) errs → All (IsHarmless []) errs
IsHarmless-each [] h = tt
IsHarmless-each (none ∷ errs) (h, hs) = (tt, IsHarmless-each errs hs)
IsHarmless-each (some e ∷ errs) (h, hs) = cc

none_of_named : (n : Notebook) (e : Option Error) → named_error n e ≡ none → e ≡ none
unfolding named_error
none_of_named n none h = refl
none_of_named n (some e) h = cc

-- `reconcileNotebookResources` returns no error exactly when no goroutine left one.
pub resources_error-none_iff :
    (n : Notebook) (errs : List (Option Error))
    → (resources_error n errs ≡ none) ↔ All (λ e. e ≡ none) errs
unfolding resources_error
resources_error-none_iff n errs = (
  λ h. none_each errs ((join_errors-none_iff [] errs).0 (none_of_named n _ h)),
  λ h. ap (named_error n) ((join_errors-none_iff [] errs).1 (IsHarmless-each errs h)),
)

module _ {W Certificate PrivateKey : Type 0} (G : W → W → Type 0) (C L : Type 0)
    (c : Controller W Certificate PrivateKey) (n : Notebook)
    (bounds : Bounds G C L c n.meta.namespace n.meta.name) where
  reconcilers_total :
      (seed : ℕ) {secret sts ing : Reconciler W}
      → secret_reconciler c seed n ≡ value secret
      → stateful_set_reconciler c n ≡ value sts
      → ingress_reconciler c n ≡ value ing
      → reconcilers c seed n ≡ value (service_reconciler c n ∷ secret ∷ sts ∷ ing ∷ [])
  unfolding reconcilers
  reconcilers_total seed e₁ e₂ e₃ = λ i. gather (service_reconciler c n) (e₁ i) (e₂ i) (e₃ i)

  third :
      (errs : List (Option Error))
      → Results G C
          (Success G C Unit
            ∷ Success G C Unit
            ∷ Success G C (ServedIfLive L c n)
            ∷ Success G C Unit
            ∷ [])
          errs
      → resources_error n errs ≡ none
      → ServedIfLive L c n
  third (a ∷ b ∷ d ∷ rest) h clear =
      h.1.1.0 (((resources_error-none_iff n (a ∷ b ∷ d ∷ rest)).0 clear).1.1.0)
  third [] h clear = absurd h
  third (a ∷ []) h clear = absurd h.1
  third (a ∷ b ∷ []) h clear = absurd h.1.1

  -- For a notebook with its defaults or one that is being deleted, whatever else changes the
  -- cluster and however the goroutines interleave: `reconcileNotebookResources` writes only to the
  -- four objects of the notebook and panics only where `retry.Retry` does (`C`), and if it returns
  -- no error for a live notebook, its StatefulSet has been shown with one ready replica, or with
  -- as many as it was shown to ask for, or the messages of `retry.Retry` ended with no last one
  -- (`L`). This supposes `Bounds`: the informer shows StatefulSets under their own names with their
  -- replicas set, `retry.Retry` takes no step but those of its attempts and sends a last message
  -- without an error only if an attempt had none, and certificates can be generated.
  pub reconcile_notebook_resources-Holds :
      (s : ℕ → Schedule)
      → IsBuildable n
      → Holds G C (λ e. e ≡ none → ServedIfLive L c n) (reconcile_notebook_resources c s n)
  unfolding reconcile_notebook_resources
  reconcile_notebook_resources-Holds s buildable = λ w.
      let seed : ℕ = (c.entropy w).0 in
      let (secret, e₁, h₁) = secret-Holds G C L c n bounds seed in
      let (sts, e₂, h₂) = stateful_set-Holds G C L c n bounds buildable in
      let (ing, e₃, h₃) = ingress-Holds G C L c n bounds in
      (
        bounds.draws w,
        rw (reconcilers_total seed e₁ e₂ e₃) (
            Holds-bind G C _ _
              (par_all s (map goroutine (service_reconciler c n ∷ secret ∷ sts ∷ ing ∷ []))) _
              (Holds-par_all G C
                (Success G C Unit
                  ∷ Success G C Unit
                  ∷ Success G C (ServedIfLive L c n)
                  ∷ Success G C Unit
                  ∷ [])
                s _ (service-Holds G C L c n bounds, (h₁, (h₂, (h₃, tt)))))
              third),
      )
