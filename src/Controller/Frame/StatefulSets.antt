-- ===== src/Controller/Frame/StatefulSets.antt =====
-- The goroutine of the StatefulSet: in every execution it writes only to its object, panics only
-- where `retry.Retry` does, and succeeds only if the replicas were seen ready or the messages of
-- `retry.Retry` ended with no last one.
use mathlib.Core.Path.{ap₂}
use jupyter_operator.Common.{
  pos, ℤ, is_some, some, ◌⊎◌, ◌≡◌, refl, sym, ap, ◌∙◌, inl, inr, Bool-cases,
}
use jupyter_operator.Prog.{value}
use jupyter_operator.Prog.Holds.{Holds, Holds-weaken}
use jupyter_operator.Kube.{ok}
use jupyter_operator.Kube.Objects.{StatefulSet, StatefulSetSpec}
use jupyter_operator.Types.{Notebook}
use jupyter_operator.Types.Defaults.{IsComplete}
use jupyter_operator.K8sutil.{resource_name, add_owner_ref_to_object}
use jupyter_operator.K8sutil.Frame.{
  WasReady, IsAdopted, adopted_replicas, wait_for_stateful_set-Holds,
  create_or_update_stateful_set-Holds,
}
use jupyter_operator.K8sutil.StatefulSet.{
  wait_for_stateful_set, create_or_update_stateful_set, delete_stateful_set,
}
use jupyter_operator.K8sutil.StatefulSet.Calculate.{
  stateful_set_object, pod_template, stateful_set_from, calculate_stateful_set,
}
use jupyter_operator.Controller.{Controller}
use jupyter_operator.Controller.Reconcilers.{
  Reconciler, deleter, stateful_set_writer, stateful_set_should_exist, stateful_set_reconciler,
}
use jupyter_operator.Controller.Resources.{goroutine}
use jupyter_operator.Controller.Frame.Bounds.{Bounds, IsBuildable, WasServed, ServedIfLive}
use jupyter_operator.Controller.Frame.Goroutines.{Success, goroutine-Holds, deleter-Holds}

some_injective : {a b : ℤ} → some a ≡ some b → a ≡ b
some_injective e = cc

module _ {W Certificate PrivateKey : Type 0} (G : W → W → Type 0) (C L : Type 0)
    (c : Controller W Certificate PrivateKey) (n : Notebook)
    (bounds : Bounds G C L c n.meta.namespace n.meta.name) where
  calculate_stateful_set_total :
      IsComplete n.spec
      → (s : StatefulSet) × (calculate_stateful_set n ≡ value s)
        × (s.meta.name ≡ resource_name n.meta.name)
        × (s.meta.namespace ≡ n.meta.namespace)
        × (s.spec.replicas ≡ some (pos 1))
  unfolding calculate_stateful_set add_owner_ref_to_object
  calculate_stateful_set_total complete =
      let (flavor, flavor_set) = complete.flavor_set in
      let (account, account_set) = complete.account_set in
      (
        stateful_set_object n (pod_template n flavor account),
        ap₂ (stateful_set_from n) flavor_set account_set,
        refl,
        refl,
        refl,
      )

  served :
      (sts adopted : StatefulSet)
      → sts.meta.name ≡ resource_name n.meta.name
      → sts.meta.namespace ≡ n.meta.namespace
      → sts.spec.replicas ≡ some (pos 1)
      → IsAdopted c.stateful_set_lister sts adopted
      → WasReady c.stateful_set_lister adopted
      → WasServed c n
  served sts adopted named placed one h (w, s, shown, ready) =
      let place : sts.meta.namespace ≡ n.meta.namespace = placed in
      let here : c.stateful_set_lister.get n.meta.namespace (resource_name n.meta.name) w ≡ ok s =
        rw (← placed, ← named, ← h.same_name, ← h.same_namespace) shown in
      elim h.spec_from [
        | inl same ↦ (
          w,
          s,
          here,
          inl (some_injective (sym ready ∙ ap (λ (x : StatefulSetSpec). x.replicas) same ∙ one)),
        )
        | inr (w', s', shown', same) ↦ (
          w,
          s,
          here,
          inr (
            w',
            s',
            rw (← placed, ← named) shown',
            sym (ap (λ (x : StatefulSetSpec). x.replicas) same) ∙ ready,
          ),
        )
      ]

  pub stateful_set-Holds :
      IsBuildable n
      → (r : Reconciler W) × (stateful_set_reconciler c n ≡ value r)
        × Holds G C (Success G C (ServedIfLive L c n)) (goroutine r)
  unfolding stateful_set_reconciler delete_stateful_set stateful_set_should_exist goroutine
  stateful_set-Holds (inl complete) = elim (Bool-cases (is_some n.meta.deletion_timestamp)) [
    | inl gone ↦ (
      deleter "*v1.StatefulSet" (delete_stateful_set (c.stateful_sets n.meta.namespace) n),
      rw gone,
      deleter-Holds G C (ServedIfLive L c n) "*v1.StatefulSet" _ (c.stateful_sets n.meta.namespace)
          (λ o. o.meta.name) bounds.stateful_sets (λ live. cc),
    )
    | inr live ↦
        let (s, calculated, named, placed, one) = calculate_stateful_set_total complete in
        (
          stateful_set_writer c n s,
          rw (live, calculated),
          goroutine-Holds G C (ServedIfLive L c n) (stateful_set_writer c n s)
              (create_or_update_stateful_set c.stateful_set_lister c.retry
                (c.stateful_sets n.meta.namespace) c.vendor.template_diff)
              (IsAdopted c.stateful_set_lister s)
              (create_or_update_stateful_set-Holds G C L bounds.reads c.stateful_set_lister c.retry
                bounds.faithful (c.stateful_sets n.meta.namespace) s (rw named bounds.stateful_sets)
                c.vendor.template_diff bounds.shows)
              (λ adopted h.
                let (wanted, asked) =
                  adopted_replicas c.stateful_set_lister s adopted (pos 1) bounds.shows h one in
                Holds-weaken G C (Success G C (WasReady c.stateful_set_lister adopted ⊎ L))
                  (Success G C (ServedIfLive L c n))
                  (wait_for_stateful_set c.stateful_set_lister c.retry adopted)
                  (wait_for_stateful_set-Holds G C L bounds.reads c.stateful_set_lister c.retry
                    bounds.faithful adopted wanted asked)
                  (λ e k p live'. elim (k p) [
                    | inl ready ↦ inl (served s adopted named placed one h ready)
                    | inr lost ↦ inr lost
                  ])),
        )
  ]
  stateful_set-Holds (inr gone) = (
    deleter "*v1.StatefulSet" (delete_stateful_set (c.stateful_sets n.meta.namespace) n),
    rw gone,
    deleter-Holds G C (ServedIfLive L c n) "*v1.StatefulSet" _ (c.stateful_sets n.meta.namespace)
        (λ o. o.meta.name) bounds.stateful_sets (λ live. cc),
  )
