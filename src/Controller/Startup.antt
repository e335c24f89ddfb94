-- ===== src/Controller/Startup.antt =====
-- `Run`, `wait` and `addHandlers` of pkg/controller/controller.go. An informer is known by its type.
pub mod Laws
use jupyter_operator.Common.{
  ℕ, zero, suc, String, Bool, true, false, ◌==◌, ◌&&◌, concat, Option, none, some, List, [], ◌∷◌,
  if◌then◌else◌,
}
use jupyter_operator.Prog.{Prog, ret, act, call, ◌>>=◌, ◌>>◌}
use jupyter_operator.Kube.{Error, new_error}
use jupyter_operator.Controller.Crd.{CrdApi, init_crd}

-- What `Run` sets going: the informers of `c.informers` in the order of its iterations,
-- `i.Run(stop)`, `cache.WaitForCacheSync(stop, i.HasSynced)`, `i.AddEventHandler` with the handlers
-- for notebooks or those for other objects, `wait.Until(c.worker, time.Second, stop)`, the wait for
-- `stop` and `c.queue.ShutDown()`.
pub record Startup (W : Type 0) : Type 0 where
  pub crds : CrdApi W
  pub informers : List String
  pub run_informer : String → W → W
  pub wait_for_cache_sync : String → W → Bool × W
  pub add_notebook_handlers : String → W → W
  pub add_object_handlers : String → W → W
  pub start_worker : W → W
  pub wait_for_stop : W → W
  pub shut_down : W → W

-- reflect.TypeOf(&jupyterv1.Notebook{})
abbrev pub notebook_type : String
notebook_type = "*v1.Notebook"

module _ {W : Type 0} where
  -- One step for each item.
  unfoldable pub act_each : (String → W → W) → List String → Prog W (Unit {0})
  act_each f [] = ret tt
  act_each f (it ∷ its) = act (λ _. act_each f its) (f it)

  unfoldable pub repeat : ℕ → (W → W) → Prog W (Unit {0})
  repeat zero f = ret tt
  repeat (suc n) f = act (λ _. repeat n f) f

  module _ (c : Startup W) where
    unfoldable pub add_handler : String → W → W
    add_handler it =
        if it == notebook_type then c.add_notebook_handlers it else c.add_object_handlers it

    unfoldable pub add_handlers : Prog W (Unit {0})
    add_handlers = act_each add_handler c.informers

    -- The loop of `wait`: every informer is waited for, also after one has failed.
    unfoldable pub wait_each : List String → Prog W Bool
    wait_each [] = ret true
    wait_each (it ∷ its) =
        call (c.wait_for_cache_sync it) >>= λ ok. wait_each its >>= λ rest. ret (ok && rest)

    unfoldable pub synced_error : Bool → Option Error
    synced_error true = none
    synced_error false = some (new_error "failed to sync caches")

    unfoldable pub wait_caches : Prog W (Option Error)
    wait_caches = wait_each c.informers >>= λ ok. ret (synced_error ok)

    -- What follows `c.wait(stop)`.
    unfoldable pub after_wait : ℕ → Option Error → Prog W (Option Error)
    after_wait workers (some e) =
        ret (some (new_error (concat "failed to start controller: " e.text)))
    after_wait workers none =
        add_handlers >> repeat workers c.start_worker >> act (λ _. ret none) c.wait_for_stop

    -- What follows `c.initCRD(stop)`.
    unfoldable pub after_init : ℕ → Option Error → Prog W (Option Error)
    after_init workers (some e) =
        ret (some (new_error (concat "failed to initialize CRD: " e.text)))
    after_init workers none =
        act_each c.run_informer c.informers >> wait_caches >>= after_wait workers

    -- `Run`; the queue is shut down by its `defer`.
    unfoldable pub run_controller : ℕ → Prog W (Option Error)
    run_controller workers =
        init_crd c.crds >>= after_init workers >>= λ e. act (λ _. ret e) c.shut_down
