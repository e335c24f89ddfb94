-- ===== src/Controller/Frame/Sync.antt =====
-- Every execution of `sync`.
use mathlib.Core.Path.{subst}
use jupyter_operator.Common.{
  ℕ, String, ◌==◌, ◌||◌, eq_iff, Option, none, some, List, [], ◌∷◌, ◌≡◌, ◌≢◌, refl, sym, inl, inr,
  arith, Bool-cases,
}
use jupyter_operator.Prog.{ret, ◌>>=◌}
use jupyter_operator.Prog.Holds.{Anything, Holds, Holds-bind, Holds-weaken}
use jupyter_operator.Prog.Parallel.{Schedule}
use jupyter_operator.Kube.{Error, Result, ok, err, is_not_found}
use jupyter_operator.Types.{phase_pending, phase_running, phase_failed, Notebook, set_defaults}
use jupyter_operator.Types.Defaults.{IsComplete, set_defaults-IsComplete}
use jupyter_operator.Controller.{Controller}
use jupyter_operator.Controller.Phase.{with_phase, set_notebook_phase}
use jupyter_operator.Controller.Resources.{reconcile_notebook_resources}
use jupyter_operator.Controller.Sync.{
  deleted_notebook, set_kind, start_phase, end_phase, sync_defaulted, sync_validated, sync_found,
  sync_deleted, sync_split, sync_resources, sync_notebook, sync,
}
use jupyter_operator.Controller.Frame.Bounds.{Bounds, IsBuildable, ServedIfLive}
use jupyter_operator.Controller.Frame.Resources.{reconcile_notebook_resources-Holds}

module _ {W Certificate PrivateKey : Type 0} (G : W → W → Type 0) (C L : Type 0)
    (c : Controller W Certificate PrivateKey) (ns name : String) where
  -- The notebook of a key.
  pub record IsNamed (n : Notebook) : Type 0 where
    pub same_namespace : n.meta.namespace ≡ ns
    pub same_name : n.meta.name ≡ name

  -- `G` allows the updates of the notebook itself, with all defaults set; a status that says
  -- "Running" only where the replicas of a live notebook have been seen ready, or the messages of
  -- `retry.Retry` ended with no last one.
  pub record NotebookBounds : Type 0 where
    pub update_ok :
        (n : Notebook)
        → IsNamed n
        → IsComplete n.spec
        → (w : W) → G w ((c.notebooks ns).update n w).1
    pub status_ok :
        (n : Notebook)
        → IsNamed n
        → (n.status.phase ≡ phase_running → ServedIfLive L c n)
        → (w : W) → G w ((c.notebooks ns).update_status n w).1
    -- what the informer shows is under its own key
    pub shown : (w : W) (n : Notebook) → c.notebook_lister.get ns name w ≡ ok n → IsNamed n

module _ {W Certificate PrivateKey : Type 0} (G : W → W → Type 0) (C L : Type 0)
    (c : Controller W Certificate PrivateKey) (ns name : String) (bounds : Bounds G C L c ns name)
    (own : NotebookBounds G C L c ns name) where
  abbrev Fits : Notebook → Type 0
  Fits n = IsNamed G C L c ns name n × IsBuildable n

  same-Bounds :
      (n : Notebook) → IsNamed G C L c ns name n → Bounds G C L c n.meta.namespace n.meta.name
  same-Bounds n named = rw (named.same_namespace, named.same_name) bounds

  with_phase-IsNamed :
      (n : Notebook) (phase : String)
      → IsNamed G C L c ns name n
      → IsNamed G C L c ns name (with_phase n phase)
  with_phase-IsNamed n phase named = record {
    same_namespace = named.same_namespace;
    same_name = named.same_name;
  }

  status_allowed :
      (n : Notebook) (phase : String)
      → IsNamed G C L c ns name n
      → (phase ≡ phase_running → ServedIfLive L c n)
      → (w : W) → G w ((c.notebooks n.meta.namespace).update_status (with_phase n phase) w).1
  status_allowed n phase named served w =
      subst (λ x. G w ((c.notebooks x).update_status (with_phase n phase) w).1)
        (sym named.same_namespace)
        (own.status_ok (with_phase n phase) (with_phase-IsNamed n phase named) served w)

  set_notebook_phase-Holds :
      (P : Notebook → Type 0) (n : Notebook) (phase : String)
      → IsNamed G C L c ns name n
      → (phase ≡ phase_running → ServedIfLive L c n)
      → P n
      → P (with_phase n phase)
      → Holds G C (λ r. P r.0) (set_notebook_phase c n phase)
  unfolding set_notebook_phase
  set_notebook_phase-Holds P n phase named served h h' =
      elim (Bool-cases (n.status.phase == phase)) [
        | inl same ↦ rw same h
        | inr other ↦ rw other (λ w. (status_allowed n phase named served w, h'))
      ]

  -- A phase that is set and no longer looked at.
  set_last_phase-Holds :
      (n : Notebook) (phase : String) (e : Option Error)
      → IsNamed G C L c ns name n
      → (phase ≡ phase_running → ServedIfLive L c n)
      → Holds G C Anything (set_notebook_phase c n phase >>= λ _. ret e)
  set_last_phase-Holds n phase e named served =
      Holds-bind G C (λ _. Unit) Anything (set_notebook_phase c n phase) _
        (set_notebook_phase-Holds (λ _. Unit) n phase named served tt tt) (λ r h. tt)

  pending-ne-running : ◌≢◌ {A = String} phase_pending phase_running
  pending-ne-running = ground (arith, eq_iff phase_pending phase_running)

  failed-ne-running : ◌≢◌ {A = String} phase_failed phase_running
  failed-ne-running = ground (arith, eq_iff phase_failed phase_running)

  start_phase-Holds : (n : Notebook) → Fits n → Holds G C (λ r. Fits r.0) (start_phase c n)
  unfolding start_phase
  start_phase-Holds n fits =
      elim (Bool-cases (n.status.phase == phase_running || n.status.phase == phase_failed)) [
        | inl done ↦ rw done fits
        | inr going ↦ rw going (
            set_notebook_phase-Holds Fits n phase_pending fits.0
              (λ e. absurd (pending-ne-running e)) fits
              (with_phase-IsNamed n phase_pending fits.0, fits.1))
      ]

  end_phase-Holds :
      (n : Notebook) (e : Option Error)
      → Fits n
      → (e ≡ none → ServedIfLive L c n)
      → Holds G C Anything (end_phase c n e)
  unfolding end_phase
  end_phase-Holds n (some e) fits served =
      set_last_phase-Holds n phase_failed (some e) fits.0 (λ e'. absurd (failed-ne-running e'))
  end_phase-Holds n none fits served =
      set_last_phase-Holds n phase_running none fits.0 (λ e'. served refl)

  sync_resources-Holds :
      (s : ℕ → Schedule) (n : Notebook) → Fits n → Holds G C Anything (sync_resources c s n)
  unfolding sync_resources
  sync_resources-Holds s n fits =
      Holds-bind G C _ Anything (start_phase c n) _ (start_phase-Holds n fits) λ started h.
        Holds-bind G C _ Anything (reconcile_notebook_resources c s started.0) _
          (reconcile_notebook_resources-Holds G C L c started.0 (same-Bounds started.0 h.0) s h.1)
          (λ e served. end_phase-Holds started.0 e h served)

  abbrev IsReady : Notebook → Type 0
  IsReady n = IsNamed G C L c ns name n × IsComplete n.spec

  defaulted-IsReady : (n : Notebook) → IsNamed G C L c ns name n → IsReady (set_defaults n).0
  unfolding set_defaults
  defaulted-IsReady n named = (
    record { same_namespace = named.same_namespace; same_name = named.same_name },
    set_defaults-IsComplete n,
  )

  set_kind-IsReady : (n : Notebook) → IsReady n → IsReady (set_kind n)
  unfolding set_kind
  set_kind-IsReady n (named, complete) = elim (Bool-cases (n.kind == "")) [
    | inl unset ↦
        rw unset
          (record { same_namespace = named.same_namespace; same_name = named.same_name }, complete)
    | inr kept ↦ rw kept (named, complete)
  ]

  sync_defaulted-Holds :
      (s : ℕ → Schedule) (key : String) (n : Notebook) (diffs : List String)
      → IsReady n
      → Holds G C Anything (sync_defaulted c s key n diffs)
  unfolding sync_defaulted
  sync_defaulted-Holds s key n [] (named, complete) = sync_resources-Holds s n (named, inl complete)
  sync_defaulted-Holds s key n (diff ∷ diffs) (named, complete) = λ w. (
    subst (λ x. G w ((c.notebooks x).update n w).1) (sym named.same_namespace)
        (own.update_ok n named complete w),
    tt,
  )

  sync_validated-Holds :
      (s : ℕ → Schedule) (key : String) (n : Notebook) (e : Option Error)
      → IsNamed G C L c ns name n
      → Holds G C Anything (sync_validated c s key n e)
  unfolding sync_validated
  sync_validated-Holds s key n (some e) named =
      set_last_phase-Holds n phase_failed (some e) named (λ e'. absurd (failed-ne-running e'))
  sync_validated-Holds s key n none named =
      sync_defaulted-Holds s key _ _
        (set_kind-IsReady (set_defaults n).0 (defaulted-IsReady n named))

  sync_deleted-Holds : (s : ℕ → Schedule) → Holds G C Anything (sync_deleted c s ns name)
  unfolding sync_deleted deleted_notebook
  sync_deleted-Holds s = λ w. (
    bounds.reads w,
    Holds-weaken G C _ Anything
        (reconcile_notebook_resources c s (deleted_notebook ns name (c.now w)))
        (reconcile_notebook_resources-Holds G C L c (deleted_notebook ns name (c.now w)) bounds s
          (inr refl))
        (λ e h. tt),
  )

  sync_found-Holds :
      (s : ℕ → Schedule) (key : String) (w : W) (found : Result Notebook)
      → c.notebook_lister.get ns name w ≡ found
      → Holds G C Anything (sync_found c s key ns name found)
  unfolding sync_found sync_notebook
  sync_found-Holds s key w (ok n) shown = sync_validated-Holds s key n _ (own.shown w n shown)
  sync_found-Holds s key w (err e) shown = elim (Bool-cases (is_not_found e)) [
    | inl gone ↦ rw gone (sync_deleted-Holds s)
    | inr failed ↦ rw failed tt
  ]

  -- For a key that names the notebook `name` of the namespace `ns`, whatever else changes the
  -- cluster and however the goroutines interleave: `sync` writes only to that notebook and to its
  -- four objects, it panics only where `retry.Retry` does (`C`), it updates the notebook itself
  -- only with all its defaults set, and it writes the phase "Running" over a notebook that is not
  -- being deleted only after its StatefulSet has been shown with one ready replica, or with as
  -- many as it was shown to ask for, or after the messages of `retry.Retry` ended with no last one
  -- (`L`). This supposes `Bounds` and `NotebookBounds`: the informers show objects under their own
  -- names and StatefulSets with their replicas set, `retry.Retry` takes no step but those of its
  -- attempts and sends a last message without an error only if an attempt had none, and
  -- certificates can be generated.
  pub sync-Holds :
      (s : ℕ → Schedule) (key : String)
      → c.vendor.split_key key ≡ ok (ns, name)
      → Holds G C Anything (sync c s key)
  unfolding sync sync_split
  sync-Holds s key e =
      subst (λ split. Holds G C Anything (sync_split c s key split)) (sym e)
        (λ w. (bounds.reads w, sync_found-Holds s key w _ refl))
