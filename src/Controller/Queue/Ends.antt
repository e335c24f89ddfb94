-- ===== src/Controller/Queue/Ends.antt =====
-- A worker of pkg/controller/controller.go ends once the queue has been shut down.
use mathlib.Core.Path.{subst}
use jupyter_operator.Common.{
  ℕ, zero, suc, ◌≤◌, ◌<◌, String, Bool, true, false, Option, none, some, ◌≡◌, ◌≢◌, refl, sym, ap,
  ◌∙◌, ◌⊎◌, inl, inr, Option-cases, arith,
}
use jupyter_operator.Kube.{Error, Result, ok, err}
use jupyter_operator.Prog.{Outcome, value, panics, Prog, ret}
use jupyter_operator.Prog.Run.{run, continue, run-bind}
use jupyter_operator.Prog.Holds.{Anything, Holds, Outcomes, Holds-run, Holds-run-related}
use jupyter_operator.Prog.Parallel.{Schedule}
use jupyter_operator.Controller.{Controller}
use jupyter_operator.Controller.Sync.{sync, sync_split}
use jupyter_operator.Controller.Frame.Bounds.{Bounds}
use jupyter_operator.Controller.Frame.Sync.{NotebookBounds, sync-Holds}
use jupyter_operator.Controller.Queue.{process_item, process_next_work_item, worker}
use jupyter_operator.Controller.Queue.Laws.{
  requeued, process_next_work_item_lem, process_next_work_item-panics,
}

-- `IsDown` is said of a queue that was shut down, and `pending` counts its keys: a step of the worker
-- leaves it shut down, with no more keys.
abbrev pub Drains : {W : Type 0} → (W → Type 0) → (W → ℕ) → W → W → Type 0
Drains IsDown pending w w' = IsDown w → IsDown w' × (pending w' ≤ pending w)

-- What the work queue of client-go does once it is shut down: `Get` takes a key or quits, and nothing
-- is added any more.
pub record QueueDrains {W Certificate PrivateKey : Type 0} (IsDown : W → Type 0) (pending : W → ℕ)
    (c : Controller W Certificate PrivateKey) : Type 0 where
  pub get_ok :
      (w : W)
      → IsDown w
      → ((c.queue.get w).0 ≡ none)
        ⊎ (IsDown (c.queue.get w).1 × (pending (c.queue.get w).1 < pending w))
  pub forget_ok : (key : String) (w : W) → Drains IsDown pending w (c.queue.forget key w)
  pub done_ok : (key : String) (w : W) → Drains IsDown pending w (c.queue.done key w)
  pub add_ok : (key : String) (w : W) → Drains IsDown pending w (c.queue.add_rate_limited key w)

Outcome-cases :
    {A : Type 0} (o : Outcome A)
    → ((a : A) × (o ≡ value a)) ⊎ ((reason : String) × (o ≡ panics reason))
Outcome-cases (value a) = inl (a, refl)
Outcome-cases (panics reason) = inr (reason, refl)

some_not_none : {A : Type 0} (a : A) → some a ≢ none
some_not_none a e = cc

module _ {W Certificate PrivateKey : Type 0} (IsDown : W → Type 0) (pending : W → ℕ) (C L : Type 0)
    (c : Controller W Certificate PrivateKey) (queue : QueueDrains IsDown pending c)
    (bounds : (ns name : String) → Bounds (Drains IsDown pending) C L c ns name)
    (own : (ns name : String) → NotebookBounds (Drains IsDown pending) C L c ns name) where
  Drains-trans :
      (a b d : W)
      → Drains IsDown pending a b
      → Drains IsDown pending b d
      → Drains IsDown pending a d
  Drains-trans a b d g h down =
      let (down_b, le_b) = g down in let (down_d, le_d) = h down_b in (down_d, omega arith)

  sync_split-Drains :
      (s : ℕ → Schedule) (key : String) (split : Result (String × String))
      → c.vendor.split_key key ≡ split
      → Holds (Drains IsDown pending) C Anything (sync c s key)
  unfolding sync sync_split
  sync_split-Drains s key (ok (ns, name)) e =
      sync-Holds (Drains IsDown pending) C L c ns name (bounds ns name) (own ns name) s key e
  sync_split-Drains s key (err x) e =
      subst (λ split. Holds (Drains IsDown pending) C Anything (sync_split c s key split)) (sym e)
        tt

  requeued-Drains :
      (s : ℕ → Schedule) (w : W) (key : String) (e : Option Error) (w' : W)
      → Drains IsDown pending w' (requeued c s w key e w')
  requeued-Drains s w key none w' =
      Drains-trans w' (c.queue.forget key w') (c.queue.done key (c.queue.forget key w'))
        (queue.forget_ok key w') (queue.done_ok key (c.queue.forget key w'))
  requeued-Drains s w key (some e) w' =
      Drains-trans w' (c.queue.add_rate_limited key w')
        (c.queue.done key (c.queue.add_rate_limited key w')) (queue.add_ok key w')
        (queue.done_ok key (c.queue.add_rate_limited key w'))

  -- One round of a worker: it quits, it goes on with fewer keys, or it panics where `C`.
  Round : (ℕ → Schedule) → W → Type 0
  Round s w =
      ((w' : W) × (run (process_next_work_item c s) w ≡ (value false, w')))
      ⊎ ((w' : W) × (run (process_next_work_item c s) w ≡ (value true, w'))
          × IsDown w'
          × (pending w' < pending w))
      ⊎ (C
          × (reason : String) × (w' : W) × (run (process_next_work_item c s) w
              ≡ (panics reason, w')))

  Round-synced :
      (s : ℕ → Schedule) (w : W) (key : String)
      → (c.queue.get w).0 ≡ some key
      → IsDown (c.queue.get w).1
      → pending (c.queue.get w).1 < pending w
      → Round s w
  unfolding Round
  Round-synced s w key got down less =
      let w1 = (c.queue.get w).1 in
      let result = run (sync c s key) w1 in
      let holds = sync_split-Drains s key (c.vendor.split_key key) refl in
      let kept =
        Holds-run-related (Drains IsDown pending) C Anything (λ w. λ down. (down, omega arith))
          Drains-trans (sync c s key) w1 holds in
      elim (Outcome-cases result.0) [
        | inl (e, returned) ↦
            let (down', le) =
              Drains-trans w1 result.1 (requeued c s w key e result.1) kept
                (requeued-Drains s w key e result.1) down in
            inr (
              inl (
                requeued c s w key e result.1,
                process_next_work_item_lem c s w key e result.1 got (λ i. (returned i, result.1)),
                down',
                omega arith,
              ))
        | inr (reason, panicked) ↦ inr (
            inr (
              subst (Outcomes (Drains IsDown pending) C Anything) panicked
                  (Holds-run (Drains IsDown pending) C Anything (sync c s key) w1 holds),
              reason,
              result.1,
              process_next_work_item-panics c s w key reason result.1 got
                  (λ i. (panicked i, result.1)),
            ))
      ]

  round : (s : ℕ → Schedule) (w : W) → IsDown w → Round s w
  unfolding Round process_next_work_item process_item
  round s w down = elim (Option-cases (c.queue.get w).0) [
    | inl quit ↦
        inl ((c.queue.get w).1, ap (λ item. run (process_item c s item) (c.queue.get w).1) quit)
    | inr (key, got) ↦ elim (queue.get_ok w down) [
      | inl quit ↦ absurd (some_not_none key (sym got ∙ quit))
      | inr (down', less) ↦ Round-synced s w key got down' less
    ]
  ]

  -- Once the queue has been shut down, the loop of a worker comes to an end, after no more rounds than
  -- there are keys on the queue, plus one, whichever syncs succeed or fail: it quits, or it panics
  -- where `retry.Retry` does (`C`). This supposes that a queue that was shut down gives its keys or quits and adds
  -- none, and that the steps of `sync` are those of a world that keeps the bounds of every notebook
  -- and put no key on the queue.
  pub worker_ends :
      (fuel : ℕ) (s : ℕ → ℕ → Schedule) (w : W)
      → IsDown w
      → pending w < fuel
      → ((w' : W) × (run (worker c fuel s) w ≡ (value false, w')))
        ⊎ (C × (reason : String) × (w' : W) × (run (worker c fuel s) w ≡ (panics reason, w')))
  unfolding worker Round
  worker_ends zero s w down less = absurd (omega arith)
  worker_ends (suc fuel) s w down less =
      let next : Bool → Prog W Bool =
        λ more. elim more [ true ↦ worker c fuel s | false ↦ ret false ] in
      let begins = run-bind (process_next_work_item c (s fuel)) next w in
      elim (round (s fuel) w down) [
        | inl (w', quit) ↦ inl (w', begins ∙ ap (λ r. continue r next) quit)
        | inr (inr (crashes, reason, w', panicked)) ↦
            inr (crashes, reason, w', begins ∙ ap (λ r. continue r next) panicked)
        | inr (inl (w1, more, down1, less1)) ↦
            let goes_on = begins ∙ ap (λ r. continue r next) more in
            elim (worker_ends fuel s w1 down1 (omega arith)) [
              | inl (w', ended) ↦ inl (w', goes_on ∙ ended)
              | inr (crashes, reason, w', ended) ↦ inr (crashes, reason, w', goes_on ∙ ended)
            ]
      ]
