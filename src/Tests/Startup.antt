-- ===== src/Tests/Startup.antt =====
-- Examples for the start of the controller.
use jupyter_operator.Common.{
  String, true, none, [], ◌∷◌, ◌≡◌, refl, ◌⊎◌, inl, inr, ◌||◌, ◌↔◌, ℕ, insert,
}
use jupyter_operator.Prog.{ret, ◌>>=◌}
use jupyter_operator.Prog.Holds.{Anything, Holds, Holds-bind}
use jupyter_operator.Kube.{ok}
use jupyter_operator.Controller.Startup.{Startup, run_controller}
use jupyter_operator.Controller.Startup.Laws.{AllSynced, StartBounds, run_controller-Holds}
use jupyter_operator.Controller.Timer.{Timer, started, stop, here, next}
use jupyter_operator.Controller.Timer.Laws.{CanClose, CanClose-iff}
use jupyter_operator.Controller.New.{InformersOf, Config, new_controller}
use jupyter_operator.Tests.World.{World, demo_controller}

-- Every step is recorded; the poll tries once.
abbrev recorded_start : Startup World
recorded_start = record {
  crds = record {
    create = λ config w. (none, "create" ∷ w);
    get = λ name w. ok (record { type = "Established"; status = "True" } ∷ []);
    poll_until = λ interval limit condition. condition >>= λ r. ret none;
  };
  informers = "*v1.Notebook" ∷ "*v1.Secret" ∷ [];
  run_informer = λ it w. "run" ∷ w;
  wait_for_cache_sync = λ it w. (true, w);
  add_notebook_handlers = λ it w. "notebook handlers" ∷ w;
  add_object_handlers = λ it w. "object handlers" ∷ w;
  start_worker = λ w. "worker" ∷ w;
  wait_for_stop = λ w. w;
  shut_down = λ w. "shut down" ∷ w;
}

-- At most one step is recorded.
abbrev Recorded : World → World → Type 0
Recorded w w' = (w' ≡ w) ⊎ ((step : String) × (w' ≡ step ∷ w))

Recorded-StartBounds : StartBounds Recorded recorded_start
Recorded-StartBounds = record {
  reads = λ w. inl refl;
  create_ok = λ w. inr ("create", refl);
  polls = λ interval limit condition h.
      Holds-bind Recorded ⊥ Anything Anything condition _ h (λ r k. tt);
  run_ok = λ it w. inr ("run", refl);
  wait_ok = λ it w. inl refl;
  notebook_ok = λ synced it w. inr ("notebook handlers", refl);
  object_ok = λ synced it w. inr ("object handlers", refl);
  worker_ok = λ synced w. inr ("worker", refl);
  stop_ok = λ synced w. inl refl;
  shut_down_ok = λ w. inr ("shut down", refl);
}

run_controller-Holds_example :
    Holds Recorded ⊥
      (λ e. e ≡ none → AllSynced Recorded recorded_start recorded_start.informers)
      (run_controller recorded_start 2)
run_controller-Holds_example = run_controller-Holds Recorded recorded_start Recorded-StartBounds 2

-- `stop` was closed before the duration passed.
abbrev stopped_timer : Timer
stopped_timer = record started { stopped = true }

CanClose-iff_example :
    ((stopped_timer.elapsed || stopped_timer.stopped) ≡ true) ↔ CanClose stopped_timer
CanClose-iff_example = CanClose-iff stopped_timer (next here (stop started))

-- An informer is its kind, its namespace and its period.
abbrev plain_informers : InformersOf World (String × String × ℕ)
plain_informers = record {
  new_notebook_informer = λ ns period. ("notebooks", ns, period);
  new_stateful_set_informer = λ ns period. ("statefulsets", ns, period);
  new_secret_informer = λ ns period. ("secrets", ns, period);
  new_service_informer = λ ns period. ("services", ns, period);
  new_ingress_informer = λ ns period. ("ingresses", ns, period);
  new_notebook_lister = λ i. demo_controller.notebook_lister;
  new_stateful_set_lister = λ i. demo_controller.stateful_set_lister;
  new_secret_lister = λ i. demo_controller.secret_lister;
  new_service_lister = λ i. demo_controller.service_lister;
  new_ingress_lister = λ i. demo_controller.ingress_lister;
}

abbrev plain_config : Config String String
plain_config = record { ca_cert = "ca"; ca_key = "key"; kubeconfig = ""; namespace = "default" }

five_informers :
    (new_controller plain_informers plain_config (λ path. demo_controller)).1
    ≡ ("*v1.Notebook", ("notebooks", "default", 300))
      ∷ ("*v1.StatefulSet", ("statefulsets", "default", 300))
      ∷ ("*v1.Secret", ("secrets", "default", 300))
      ∷ ("*v1.Service", ("services", "default", 300))
      ∷ ("*v1beta1.Ingress", ("ingresses", "default", 300))
      ∷ []
unfolding new_controller insert
five_informers = refl
