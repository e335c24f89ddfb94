-- ===== src/Controller/Frame/Goroutines.antt =====
-- The goroutine of one reconciler.
use jupyter_operator.Common.{String, Option, none, some, ◌≡◌}
use jupyter_operator.Prog.{Prog, call, ◌>>=◌}
use jupyter_operator.Prog.Holds.{Anything, Holds, Holds-bind}
use jupyter_operator.Kube.{Error}
use jupyter_operator.Kube.Resource.{Client, unset}
use jupyter_operator.K8sutil.Upsert.Laws.{Permits}
use jupyter_operator.Controller.Reconcilers.{Reconciler, keep, deleter, writer}
use jupyter_operator.Controller.Resources.{
  remaining, wait_part, unless_failed, after_reconcile, goroutine,
}

module _ {W : Type 0} (G : W → W → Type 0) (C T : Type 0) where
  abbrev pub Success : Option Error → Type 0
  Success e = e ≡ none → T

  pub unless_failed-Holds :
      (r : Reconciler W) (captured : r.Captured) (e : Option Error)
      → Holds G C Success (wait_part r captured)
      → Holds G C Success (unless_failed r captured e)
  unfolding unless_failed
  unless_failed-Holds r captured none h = h
  unless_failed-Holds r captured (some e) h = λ p. cc

  -- A goroutine whose `reconcile` leaves its variable in a state from which the wait succeeds.
  pub goroutine-Holds :
      (r : Reconciler W) (f : r.Captured → Prog W (r.Captured × Option Error))
      (Q : r.Captured → Type 0)
      → Holds G C (λ done. Q done.0) (f r.captured)
      → ((captured : r.Captured) → Q captured → Holds G C Success (wait_part r captured))
      → Holds G C Success (f r.captured >>= after_reconcile r)
  unfolding after_reconcile
  goroutine-Holds r f Q h k =
      Holds-bind G C _ Success (f r.captured) (after_reconcile r) h
        (λ done q. unless_failed-Holds r done.0 (remaining done.1) (k done.0 q))

module _ {W : Type 0} (G : W → W → Type 0) (C : Type 0) where
  pub keep-Holds :
      {A : Type 0} (p : Prog W (Option Error)) (a : A)
      → Holds G C Anything p
      → Holds G C (λ (done : A × Option Error). Unit) (keep p a)
  keep-Holds p a h = Holds-bind G C _ _ p _ h (λ e k. tt)

  -- A deletion succeeds with whatever holds anyway.
  pub deleter-Holds :
      {Obj : Type 0} (T : Type 0) (kind name : String) (client : Client W Obj)
      (name_of : Obj → String)
      → Permits G client name_of name
      → T
      → Holds G C (Success G C T) (goroutine (deleter kind (call (client.delete name unset))))
  unfolding goroutine
  deleter-Holds T kind name client name_of permits t =
      goroutine-Holds G C T (deleter kind (call (client.delete name unset)))
        (keep (call (client.delete name unset))) (λ _. Unit) (λ w. (permits.delete_ok unset w, tt))
        (λ captured q e. t)

  pub writer-Holds :
      {Obj : Type 0} (kind : String) (x : Obj) (write : Obj → Prog W (Option Error))
      → Holds G C Anything (write x)
      → Holds G C (Success G C Unit) (goroutine (writer kind x write))
  unfolding goroutine
  writer-Holds kind x write h =
      goroutine-Holds G C Unit (writer kind x write) (λ o. keep (write o) o) (λ _. Unit)
        (keep-Holds (write x) x h) (λ captured q e. tt)
