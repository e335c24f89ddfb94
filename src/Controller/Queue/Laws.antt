-- ===== src/Controller/Queue/Laws.antt =====
-- What one round of a worker leaves on the queue.
use jupyter_operator.Common.{ℕ, String, true, Option, none, some, ◌≡◌, refl, ap, ◌∙◌}
use jupyter_operator.Prog.{value, panics}
use jupyter_operator.Prog.Run.{run, continue, run-bind}
use jupyter_operator.Prog.Parallel.{Schedule}
use jupyter_operator.Kube.{Error}
use jupyter_operator.Controller.{Controller}
use jupyter_operator.Controller.Sync.{sync}
use jupyter_operator.Controller.Queue.{finish_item, process_item, process_next_work_item}

module _ {W Certificate PrivateKey : Type 0} (c : Controller W Certificate PrivateKey)
    (s : ℕ → Schedule) (w : W) where
  -- The queue after a round: the key is forgotten if `sync` succeeded and put back under the rate limit
  -- if it failed, and in both cases it is marked done after that.
  abbrev pub requeued : String → Option Error → W → W
  requeued key none w' = c.queue.done key (c.queue.forget key w')
  requeued key (some e) w' = c.queue.done key (c.queue.add_rate_limited key w')

  finish_item_lem :
      (key : String) (e : Option Error) (w' : W)
      → run (finish_item c key e) w' ≡ (value true, requeued key e w')
  unfolding finish_item
  finish_item_lem key none w' = refl
  finish_item_lem key (some e) w' = refl

  -- If the queue gives a key and `sync` of it returns without a panic, a round forgets the key where
  -- `sync` succeeded and puts it back under the rate limit where it failed, marks it done after that,
  -- and asks for another round.
  pub process_next_work_item_lem :
      (key : String) (e : Option Error) (w' : W)
      → (c.queue.get w).0 ≡ some key
      → run (sync c s key) (c.queue.get w).1 ≡ (value e, w')
      → run (process_next_work_item c s) w ≡ (value true, requeued key e w')
  unfolding process_next_work_item process_item
  process_next_work_item_lem key e w' got synced =
      ap (λ item. run (process_item c s item) (c.queue.get w).1) got
      ∙ run-bind (sync c s key) (finish_item c key) (c.queue.get w).1
      ∙ ap (λ r. continue r (finish_item c key)) synced
      ∙ finish_item_lem key e w'

  -- A panic of `sync` is one of the round.
  pub process_next_work_item-panics :
      (key reason : String) (w' : W)
      → (c.queue.get w).0 ≡ some key
      → run (sync c s key) (c.queue.get w).1 ≡ (panics reason, w')
      → run (process_next_work_item c s) w ≡ (panics reason, w')
  unfolding process_next_work_item process_item
  process_next_work_item-panics key reason w' got panicked =
      ap (λ item. run (process_item c s item) (c.queue.get w).1) got
      ∙ run-bind (sync c s key) (finish_item c key) (c.queue.get w).1
      ∙ ap (λ r. continue r (finish_item c key)) panicked
