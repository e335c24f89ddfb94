-- ===== src/Controller/Queue.antt =====
-- `worker` and `processNextWorkItem` of pkg/controller/controller.go.
pub mod Laws
pub mod Ends
use jupyter_operator.Common.{ℕ, zero, suc, String, Bool, true, false, Option, none, some}
use jupyter_operator.Prog.{Prog, ret, act, call, ◌>>=◌, ◌>>◌}
use jupyter_operator.Prog.Parallel.{Schedule}
use jupyter_operator.Kube.{Error}
use jupyter_operator.Controller.{Controller}
use jupyter_operator.Controller.Sync.{sync}

module _ {W Certificate PrivateKey : Type 0} (c : Controller W Certificate PrivateKey) where
  -- After `sync`: forget the key, or add it again under the rate limit; `Done` is deferred.
  unfoldable pub finish_item : String → Option Error → Prog W Bool
  finish_item key none = act (λ _. act (λ _. ret true) (c.queue.done key)) (c.queue.forget key)
  finish_item key (some e) =
      act (λ _. act (λ _. ret true) (c.queue.done key)) (c.queue.add_rate_limited key)

  -- What follows on `c.queue.Get()`; none is its `quit`.
  unfoldable pub process_item : (ℕ → Schedule) → Option String → Prog W Bool
  process_item s none = ret false
  process_item s (some key) = sync c s key >>= finish_item key

  unfoldable pub process_next_work_item : (ℕ → Schedule) → Prog W Bool
  process_next_work_item s = call c.queue.get >>= process_item s

  -- `for c.processNextWorkItem() {}`, for at most `fuel` rounds: true if it has not ended by then.
  -- The schedules of a round are its own.
  unfoldable pub worker : (fuel : ℕ) → (ℕ → ℕ → Schedule) → Prog W Bool
  worker zero s = ret true
  worker (suc fuel) s = process_next_work_item (s fuel) >>= λ more. elim more [
    | true ↦ worker fuel s
    | false ↦ ret false
  ]
