-- ===== src/Tests/Clientset.antt =====
-- Examples for pkg/clientset and pkg/listers.
use jupyter_operator.Common.{
  ℕ, String, Bool, true, Option, none, some, List, [], ◌∷◌, ◌≡◌, refl, sym, ap, inl, inr,
}
use jupyter_operator.Prog.Holds.{Anything, Holds}
use jupyter_operator.Prog.Parallel.{Schedule}
use jupyter_operator.Kube.{ok}
use jupyter_operator.Types.{Notebook}
use jupyter_operator.Controller.Sync.{sync}
use jupyter_operator.Controller.Frame.Bounds.{Bounds}
use jupyter_operator.Listers.{Indexer, list_notebooks, list_in_namespace, get_notebook}
use jupyter_operator.Listers.Laws.{Answers, lister_lem}
use jupyter_operator.Clientset.{Vendored, RestClient}
use jupyter_operator.Clientset.Refines.{wired, RestBounds, sync-wired-Holds}
use jupyter_operator.Tests.World.{World, demo, demo_controller, Allowed, demo-Bounds}

abbrev pub plain : Vendored
plain = record {
  GetOptions = Unit;
  ListOptions = Bool;
  DeleteOptions = Unit;
  PatchType = Unit;
  NotebookList = List Notebook;
  Watch = Unit;
  with_watch = λ opts. true;
}

-- It records the name that a request has, if it has one.
abbrev pub recorded : Option String → World → World
recorded none w = w
recorded (some name) w = name ∷ w

abbrev pub recording_client : RestClient plain World
recording_client = record {
  into_notebook = λ r w. ((demo, none), recorded r.name w);
  into_list = λ r w. (([], none), recorded r.name w);
  error = λ r w. (none, recorded r.name w);
  watch = λ r w. ((none, none), recorded r.name w);
}

abbrev pub demo_index : Indexer World (Unit {0})
demo_index = record {
  get_by_key = λ key w. ok (some demo);
  not_found_message = λ name. name;
  list_all = λ selector w. (demo ∷ [], none);
  list_all_by_namespace = λ ns selector w. (demo ∷ [], none);
}

some_inj : {n m : Notebook} → ok (some n) ≡ ok (some m) → n ≡ m
some_inj e = cc

demo-RestBounds :
    RestBounds plain Allowed ⊥ demo_controller recording_client demo_index "default" "demo"
demo-RestBounds = record {
  put_ok = λ n w e complete. inr ("demo", refl, inl refl);
  put_status_ok = λ n w e served. inr ("demo", refl, inl refl);
  stored = λ w n e. (
    ap (λ (n : Notebook). n.meta.namespace) (sym (some_inj e)),
    ap (λ (n : Notebook). n.meta.name) (sym (some_inj e)),
  );
}

wired-Bounds :
    Bounds Allowed ⊥ ⊥ (wired plain demo_controller recording_client demo_index) "default" "demo"
wired-Bounds = record {
  reads = demo-Bounds.reads;
  draws = demo-Bounds.draws;
  services = demo-Bounds.services;
  secrets = demo-Bounds.secrets;
  stateful_sets = demo-Bounds.stateful_sets;
  ingresses = demo-Bounds.ingresses;
  faithful = demo-Bounds.faithful;
  shows = demo-Bounds.shows;
  signs = demo-Bounds.signs;
}

abbrev in_order : ℕ → Schedule
in_order i step = true

sync-wired-Holds_example :
    Holds Allowed ⊥ Anything
      (sync (wired plain demo_controller recording_client demo_index) in_order "default/demo")
sync-wired-Holds_example =
    sync-wired-Holds plain Allowed ⊥ ⊥ demo_controller recording_client demo_index "default" "demo"
      demo-RestBounds in_order "default/demo" wired-Bounds refl

lister_lem_example :
    (list_notebooks demo_index tt [] ≡ (demo ∷ [], none))
    × (list_in_namespace demo_index "default" tt [] ≡ (demo ∷ [], none))
    × Answers (ok (some demo)) (get_notebook demo_index "default" "demo" [])
lister_lem_example = lister_lem demo_index tt "default" "demo" []
