-- ===== src/Tests/Queue.antt =====
-- Examples for the end of a worker of pkg/controller/controller.go.
use jupyter_operator.Common.{
  pos, ℕ, ◌<◌, String, true, false, Option, none, some, [], ◌∷◌, ◌≡◌, refl, sym, ap, length, ◌⊎◌,
  inl, inr, arith,
}
use jupyter_operator.Kube.Resource.{Client}
use jupyter_operator.Kube.Objects.{StatefulSet}
use jupyter_operator.Types.{Notebook}
use jupyter_operator.Tls.{new_signed_cert}
use jupyter_operator.K8sutil.Upsert.Laws.{Permits}
use jupyter_operator.Prog.{value, panics}
use jupyter_operator.Prog.Run.{run}
use jupyter_operator.Prog.Parallel.{Schedule}
use jupyter_operator.Controller.{Controller}
use jupyter_operator.Controller.Frame.Bounds.{Bounds}
use jupyter_operator.Controller.Frame.Sync.{NotebookBounds}
use jupyter_operator.Controller.Queue.{worker}
use jupyter_operator.Controller.Queue.Ends.{Drains, QueueDrains, worker_ends}
use jupyter_operator.Tests.World.{World, demo_controller, retry_once-IsFaithful, ok_inj}

-- The keys that are left on the queue are the world here, and the clients do nothing to it.
abbrev idle_client : {Obj : Type 0} → Client World Obj
idle_client = record {
  create = λ o w. (none, w);
  update = λ o w. (none, w);
  delete = λ name p w. (none, w);
}

abbrev take_key : World → Option String × World
take_key [] = (none, [])
take_key (key ∷ keys) = (some key, keys)

abbrev closing_controller : Controller World String String
closing_controller = record demo_controller {
  notebooks = λ ns. record { update = λ n w. (none, w); update_status = λ n w. (none, w) };
  services = λ ns. idle_client;
  secrets = λ ns. idle_client;
  stateful_sets = λ ns. idle_client;
  ingresses = λ ns. idle_client;
  queue = record {
    get = take_key;
    add = λ key w. w;
    add_rate_limited = λ key w. w;
    forget = λ key w. w;
    done = λ key w. w;
    shut_down = λ w. w;
  };
}

-- The queue was shut down before.
abbrev Down : World → Type 0
Down w = Unit

abbrev Closing : World → World → Type 0
Closing = Drains Down length

kept : (w : World) → Closing w w
kept w down = (tt, omega arith)

idle_client-Permits :
    {Obj : Type 0} (name_of : Obj → String) (name : String)
    → Permits Closing (idle_client {Obj = Obj}) name_of name
idle_client-Permits name_of name = record {
  create_ok = λ o e w. kept w;
  update_ok = λ o e w. kept w;
  delete_ok = λ p w. kept w;
}

shutting-Bounds : (ns name : String) → Bounds Closing ⊥ ⊥ closing_controller ns name
unfolding new_signed_cert
shutting-Bounds ns name = record {
  reads = kept;
  draws = kept;
  services = idle_client-Permits _ _;
  secrets = idle_client-Permits _ _;
  stateful_sets = idle_client-Permits _ _;
  ingresses = idle_client-Permits _ _;
  faithful = retry_once-IsFaithful Closing;
  shows = record {
    shown_name = λ ns name w s e. ap (λ (s : StatefulSet). s.meta.name) (sym (ok_inj e));
    shown_replicas =
        λ ns name w s e. (pos 1, ap (λ (s : StatefulSet). s.spec.replicas) (sym (ok_inj e)));
  };
  signs = λ seed names common. (("cert", "key"), refl);
}

shutting-NotebookBounds : (ns name : String) → NotebookBounds Closing ⊥ ⊥ closing_controller ns name
shutting-NotebookBounds ns name = record {
  update_ok = λ n named complete w. kept w;
  status_ok = λ n named served w. kept w;
  shown = λ w n e. record {
    same_namespace = ap (λ (n : Notebook). n.meta.namespace) (sym (ok_inj e));
    same_name = ap (λ (n : Notebook). n.meta.name) (sym (ok_inj e));
  };
}

taken :
    (w : World)
    → ((take_key w).0 ≡ none) ⊎ (Down (take_key w).1 × (length (take_key w).1 < length w))
taken [] = inl refl
taken (key ∷ keys) = inr (tt, omega arith)

shutting-QueueDrains : QueueDrains Down length closing_controller
shutting-QueueDrains = record {
  get_ok = λ w down. taken w;
  forget_ok = λ key w. kept w;
  done_ok = λ key w. kept w;
  add_ok = λ key w. kept w;
}

abbrev left_first : ℕ → ℕ → Schedule
left_first round i step = true

-- Two keys are left, and three rounds are enough.
worker_ends_example :
    ((w' : World) × (run (worker closing_controller 3 left_first) ("a/b" ∷ "c/d" ∷ [])
        ≡ (value false, w')))
    ⊎ (⊥
        × (reason : String) × (w' : World) × (run
              (worker closing_controller 3 left_first)
              ("a/b" ∷ "c/d" ∷ [])
            ≡ (panics reason, w')))
worker_ends_example =
    worker_ends Down length ⊥ ⊥ closing_controller shutting-QueueDrains shutting-Bounds
      shutting-NotebookBounds 3 left_first ("a/b" ∷ "c/d" ∷ []) tt (omega arith)
