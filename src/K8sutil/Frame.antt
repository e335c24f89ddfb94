-- ===== src/K8sutil/Frame.antt =====
-- Every execution of the StatefulSet functions and of the waits of pkg/k8sutil, whatever else changes
-- the cluster meanwhile: what they write, where they may panic, and what a wait that returns no error has
-- seen.
use jupyter_operator.Common.{
  ℕ, String, int_eq, int_eq-true, ℤ, sym, Option, none, some, List, [], ◌∷◌, ◌≡◌, refl, ap, ◌∙◌,
  ◌⊎◌, inl, inr, Bool-cases, true, false, All,
}
use jupyter_operator.Prog.{Prog}
use jupyter_operator.Prog.Holds.{Anything, Holds, Holds-bind, Holds-weaken}
use jupyter_operator.Kube.{Error, Result, ok, err, is_not_found}
use jupyter_operator.Kube.Resource.{Client, Lister, foreground}
use jupyter_operator.Kube.Objects.{PodTemplateSpec, StatefulSet, StatefulSetSpec}
use jupyter_operator.K8sutil.{is_managed_by_operator}
use jupyter_operator.K8sutil.Retry.{Message, Retry, outcome_of, wait_for}
use jupyter_operator.K8sutil.Upsert.Laws.{Permits}
use jupyter_operator.K8sutil.StatefulSet.{
  ready_answer, wait_for_stateful_set, wait_for_stateful_set_deleted, create_again, await_deletion,
  replace_stateful_set, settle_template, settle_stateful_set, create_or_update_stateful_set, adopt,
}

-- What is supposed of `retry.Retry`: it takes no step but those of its attempts, it may panic only
-- where they may or where `C`, a last message without an error means that an attempt had none, and
-- the channel is closed with no last message only where `L`.
abbrev pub IsFaithful : {W : Type 0} → (W → W → Type 0) → Type 0 → Type 0 → Retry W → Type 1
IsFaithful G C L retry =
    (P : Type 0) (interval limit : ℕ) (attempt : Prog _ (Option Error))
    → Holds G C (λ e. e ≡ none → P) attempt
    → Holds G C
        (λ (ms : List Message).
          All (λ m. m.done ≡ true → m.error ≡ none → P) ms × (All (λ m. m.done ≡ false) ms → L))
        (retry interval limit attempt)

-- The loop over the messages returns no error only after a last message that has none, or when
-- there was no last message.
outcome_of-none :
    (P L : Type 0) (ms : List Message)
    → All (λ m. m.done ≡ true → m.error ≡ none → P) ms
    → (All (λ m. m.done ≡ false) ms → L)
    → outcome_of ms ≡ none
    → P ⊎ L
unfolding outcome_of
outcome_of-none P L [] h last e = inr (last tt)
outcome_of-none P L (m ∷ ms) (h, hs) last e = elim (Bool-cases m.done) [
  | inl final ↦ inl (h final (rw final at e))
  | inr going ↦ outcome_of-none P L ms hs (λ k. last (going, k)) (rw going at e)
]

module _ {W : Type 0} (G : W → W → Type 0) (C L : Type 0) where
  pub wait_for-Holds :
      (P : Type 0) (retry : Retry W) (attempt : Prog W (Option Error))
      → IsFaithful G C L retry
      → Holds G C (λ e. e ≡ none → P) attempt
      → Holds G C (λ e. e ≡ none → P ⊎ L) (wait_for retry attempt)
  wait_for-Holds P retry attempt faithful h =
      Holds-bind G C _ _ (retry 5 60 attempt) _ (faithful P 5 60 attempt h)
        (λ ms k. outcome_of-none P L ms k.0 k.1)

-- What the informer of StatefulSets shows: objects under their own names, whose `Replicas` the API
-- server has set.
pub record ShowsDefaulted {W : Type 0} (l : Lister W StatefulSet) : Type 0 where
  pub shown_name :
      (ns name : String) (w : W) (s : StatefulSet) → l.get ns name w ≡ ok s → s.meta.name ≡ name
  pub shown_replicas :
      (ns name : String) (w : W) (s : StatefulSet)
      → l.get ns name w ≡ ok s
      → (wanted : ℤ) × (s.spec.replicas ≡ some wanted)

module _ {W : Type 0} (l : Lister W StatefulSet) where
  -- At some moment the lister showed as many ready replicas as `sts` asks for.
  abbrev pub WasReady : StatefulSet → Type 0
  WasReady sts =
      (w : W) × (s : StatefulSet) × (l.get sts.meta.namespace sts.meta.name w ≡ ok s)
      × (sts.spec.replicas ≡ some s.ready_replicas)

  -- `sts'` is the object `sts` with its own spec or with one that the lister has shown.
  pub record IsAdopted (sts sts' : StatefulSet) : Type 0 where
    pub same_name : sts'.meta.name ≡ sts.meta.name
    pub same_namespace : sts'.meta.namespace ≡ sts.meta.namespace
    pub spec_from :
        (sts'.spec ≡ sts.spec)
        ⊎ ((w : W) × (s : StatefulSet) × (l.get sts.meta.namespace sts.meta.name w ≡ ok s)
            × (sts'.spec ≡ s.spec))

  IsAdopted-refl : {sts : StatefulSet} → IsAdopted sts sts
  IsAdopted-refl = record { same_name = refl; same_namespace = refl; spec_from = inl refl }

  -- What an adopted StatefulSet asks for: its own replicas, or those of an object that was shown.
  pub adopted_replicas :
      (sts sts' : StatefulSet) (own : ℤ)
      → ShowsDefaulted l
      → IsAdopted sts sts'
      → sts.spec.replicas ≡ some own
      → (wanted : ℤ) × (sts'.spec.replicas ≡ some wanted)
  adopted_replicas sts sts' own shows adopted e = elim adopted.spec_from [
    | inl same ↦ (own, ap (λ (spec : StatefulSetSpec). spec.replicas) same ∙ e)
    | inr (w, s, shown, same) ↦
        let (wanted, asked) = shows.shown_replicas sts.meta.namespace sts.meta.name w s shown in
        (wanted, ap (λ (spec : StatefulSetSpec). spec.replicas) same ∙ asked)
  ]

module _ {W : Type 0} (G : W → W → Type 0) (C L : Type 0) (reads : (w : W) → G w w)
    (l : Lister W StatefulSet) where
  ready_answer-Holds :
      (sts : StatefulSet) (wanted : ℤ) (w : W) (found : Result StatefulSet)
      → sts.spec.replicas ≡ some wanted
      → l.get sts.meta.namespace sts.meta.name w ≡ found
      → Holds G C (λ e. e ≡ none → WasReady l sts) (ready_answer {W = W} sts found)
  unfolding ready_answer
  ready_answer-Holds sts wanted w (err e) replicas shown = λ h. cc
  ready_answer-Holds sts wanted w (ok s) replicas shown =
      elim (Bool-cases (int_eq s.ready_replicas wanted)) [
        | inl equal ↦
            rw (replicas, equal)
              (λ h. (w, s, shown, ap some (sym (int_eq-true s.ready_replicas wanted equal))))
        | inr less ↦ rw (replicas, less) (λ h. cc)
      ]

  module _ (retry : Retry W) (faithful : IsFaithful G C L retry) where
    -- For a StatefulSet that says how many replicas it wants: `WaitForStatefulSet` panics only
    -- where `retry.Retry` does (`C`), and if it returns no error, then the lister has shown that
    -- many ready replicas at some moment, or the messages of `retry.Retry` ended with no last one
    -- (`L`). This supposes that `retry.Retry` does no more than its attempts and that a last
    -- message without an error means that an attempt had none.
    pub wait_for_stateful_set-Holds :
        (sts : StatefulSet) (wanted : ℤ)
        → sts.spec.replicas ≡ some wanted
        → Holds G C (λ e. e ≡ none → WasReady l sts ⊎ L) (wait_for_stateful_set l retry sts)
    unfolding wait_for_stateful_set
    wait_for_stateful_set-Holds sts wanted replicas =
        wait_for-Holds G C L (WasReady l sts) retry _ faithful
          (λ w. (reads w, ready_answer-Holds sts wanted w _ replicas refl))

    wait_for_stateful_set_deleted-Holds :
        (sts : StatefulSet) → Holds G C Anything (wait_for_stateful_set_deleted l retry sts)
    unfolding wait_for_stateful_set_deleted
    wait_for_stateful_set_deleted-Holds sts =
        Holds-weaken G C _ _ _
          (wait_for-Holds G C L Unit retry _ faithful (λ w. (reads w, λ h. tt))) (λ e h. tt)

    module _ (c : Client W StatefulSet) (sts : StatefulSet)
        (permits : Permits G c (λ o. o.meta.name) sts.meta.name) where
      await_deletion-Holds :
          (s : StatefulSet) (e : Option Error)
          → Holds G C Anything (await_deletion l retry c s sts e)
      unfolding await_deletion create_again
      await_deletion-Holds s (some e) = tt
      await_deletion-Holds s none =
          Holds-bind G C Anything Anything (wait_for_stateful_set_deleted l retry s) _
            (wait_for_stateful_set_deleted-Holds s)
            (elim [ none ↦ λ h w. (permits.create_ok sts refl w, tt) | some e ↦ λ h. tt ])

      settle_template-Holds :
          (shows : ShowsDefaulted l) (w : W) (s : StatefulSet) (diffs : List String)
          → l.get sts.meta.namespace sts.meta.name w ≡ ok s
          → Holds G C (λ r. IsAdopted l sts r.0) (settle_template l retry c s sts diffs)
      unfolding settle_template replace_stateful_set
      settle_template-Holds shows w s [] shown = λ w'. (
        permits.update_ok (adopt s sts) refl w',
        record { same_name = refl; same_namespace = refl; spec_from = inr (w, s, shown, refl) },
      )
      settle_template-Holds shows w s (diff ∷ diffs) shown = λ w'.
          let deleted : G w' (c.delete s.meta.name foreground w').1 =
            rw (shows.shown_name sts.meta.namespace sts.meta.name w s shown)
              (permits.delete_ok foreground w') in
          (
            deleted,
            Holds-bind G C Anything _
                (await_deletion l retry c s sts (c.delete s.meta.name foreground w').0) _
                (await_deletion-Holds s (c.delete s.meta.name foreground w').0)
                (λ e h. IsAdopted-refl l),
          )

      settle_stateful_set-Holds :
          (diff : PodTemplateSpec → PodTemplateSpec → List String) (shows : ShowsDefaulted l)
          (w : W) (found : Result StatefulSet)
          → l.get sts.meta.namespace sts.meta.name w ≡ found
          → Holds G C (λ r. IsAdopted l sts r.0) (settle_stateful_set l retry c diff sts found)
      unfolding settle_stateful_set
      settle_stateful_set-Holds diff shows w (err e) shown = elim (Bool-cases (is_not_found e)) [
        | inl missing ↦ rw missing (λ w'. (permits.create_ok sts refl w', IsAdopted-refl l))
        | inr failed ↦ rw failed (IsAdopted-refl l)
      ]
      settle_stateful_set-Holds diff shows w (ok s) shown =
          elim (Bool-cases (is_managed_by_operator s.meta.labels)) [
            | inl managed ↦ rw managed (settle_template-Holds shows w s _ shown)
            | inr foreign ↦ rw foreign (IsAdopted-refl l)
          ]

      pub create_or_update_stateful_set-Holds :
          (diff : PodTemplateSpec → PodTemplateSpec → List String)
          → ShowsDefaulted l
          → Holds G C (λ r. IsAdopted l sts r.0) (create_or_update_stateful_set l retry c diff sts)
      unfolding create_or_update_stateful_set
      create_or_update_stateful_set-Holds diff shows =
          λ w. (reads w, settle_stateful_set-Holds diff shows w _ refl)
