-- ===== src/Clientset/Refines.antt =====
-- The generated client and lister keep the bounds that the controller supposes of them.
use mathlib.Core.Path.{subst}
use jupyter_operator.Common.{ℕ, String, concat, Option, none, some, [], ◌∷◌, ◌≡◌, sym}
use jupyter_operator.Kube.{Result, ok, err}
use jupyter_operator.Types.{phase_running, Notebook}
use jupyter_operator.Types.Defaults.{IsComplete}
use jupyter_operator.Controller.{Controller}
use jupyter_operator.Controller.Frame.Bounds.{Bounds, ServedIfLive}
use jupyter_operator.Controller.Frame.Sync.{NotebookBounds, sync-Holds}
use jupyter_operator.Controller.Sync.{sync}
use jupyter_operator.Prog.Holds.{Anything, Holds}
use jupyter_operator.Prog.Parallel.{Schedule}
use jupyter_operator.Listers.{Indexer, found_or_not, get_notebook, new_notebook_lister}
use jupyter_operator.Clientset.{
  Vendored, put, notebook_body, RestClient, request, update_request, update_status_request,
  new_notebooks, used_by_controller,
}

-- A controller that talks to the API server through the generated client and lister.
abbrev pub wired :
    {W Certificate PrivateKey Selector : Type 0} (V : Vendored)
    → Controller W Certificate PrivateKey
    → RestClient V W
    → Indexer W Selector
    → Controller W Certificate PrivateKey
wired V c client indexer = record c {
  notebooks = λ ns. used_by_controller (new_notebooks V client ns);
  notebook_lister = new_notebook_lister indexer;
}

-- `put_ok`: the guarantee `G` allows a PUT of a notebook with its defaults set to its own path, or a
-- PUT to its status, with the phase "Running" only where the replicas were seen ready or the messages
-- of `retry.Retry` ended with no last one. `stored`: the index has each
-- notebook under its own namespace and name.
pub record RestBounds {W Certificate PrivateKey Selector : Type 0} (V : Vendored)
    (G : W → W → Type 0) (L : Type 0) (c : Controller W Certificate PrivateKey)
    (client : RestClient V W) (indexer : Indexer W Selector) (ns name : String) : Type 0 where
  pub put_ok :
      (n : Notebook) (w : W)
      → n.meta.name ≡ name
      → IsComplete n.spec
      → G w
          (client.into_notebook
            (record (request V ns put) { name = some name; body = some (notebook_body n) })
            w).1
  pub put_status_ok :
      (n : Notebook) (w : W)
      → n.meta.name ≡ name
      → (n.status.phase ≡ phase_running → ServedIfLive L c n)
      → G w
          (client.into_notebook
            (record (request V ns put) {
              name = some name;
              sub_resources = "status" ∷ [];
              body = some (notebook_body n);
            })
            w).1
  pub stored :
      (w : W) (n : Notebook)
      → indexer.get_by_key (concat ns (concat "/" name)) w ≡ ok (some n)
      → (n.meta.namespace ≡ ns) × (n.meta.name ≡ name)

found_or_not-ok :
    (name : String) (found : Result (Option Notebook)) (n : Notebook)
    → found_or_not name found ≡ ok n
    → found ≡ ok (some n)
unfolding found_or_not
found_or_not-ok name (err e) n h = cc
found_or_not-ok name (ok none) n h = cc
found_or_not-ok name (ok (some m)) n h = cc

module _ {W Certificate PrivateKey Selector : Type 0} (V : Vendored) (G : W → W → Type 0)
    (C L : Type 0) (c : Controller W Certificate PrivateKey) (client : RestClient V W)
    (indexer : Indexer W Selector) (ns name : String)
    (rest : RestBounds V G L c client indexer ns name) where
  -- The generated client and lister do what the controller's bounds on its own notebook ask for.
  wired-NotebookBounds : NotebookBounds G C L (wired V c client indexer) ns name
  unfolding new_notebooks update_request update_status_request get_notebook
  wired-NotebookBounds = record {
    update_ok = λ n named complete w.
        subst
          (λ x.
            G w
              (client.into_notebook
                (record (request V ns put) { name = some x; body = some (notebook_body n) }) w).1)
          (sym named.same_name) (rest.put_ok n w named.same_name complete);
    status_ok = λ n named served w.
        subst
          (λ x.
            G w
              (client.into_notebook
                (record (request V ns put) {
                  name = some x;
                  sub_resources = "status" ∷ [];
                  body = some (notebook_body n);
                })
                w).1)
          (sym named.same_name) (rest.put_status_ok n w named.same_name served);
    shown = λ w n e.
        let (same_namespace, same_name) =
          rest.stored w n (found_or_not-ok (indexer.not_found_message name) _ n e) in
        record { same_namespace = same_namespace; same_name = same_name };
  }

  -- With the generated client and lister in place of the controller's parameters, for a key that names
  -- the notebook `name` of the namespace `ns`, in every execution and under every interleaving: the
  -- PUTs of `sync` are those of this notebook to its own path, with all its defaults set, and those to
  -- its status, with the phase "Running" over a live notebook only after its replicas were seen ready
  -- or the messages of `retry.Retry` ended with no last one (`L`); its other writes are those to its
  -- four objects, and it panics only where `retry.Retry` does (`C`). This supposes that the rest of
  -- the world keeps `Bounds` and that the index has each notebook under its own namespace and name.
  pub sync-wired-Holds :
      (s : ℕ → Schedule) (key : String)
      → Bounds G C L (wired V c client indexer) ns name
      → c.vendor.split_key key ≡ ok (ns, name)
      → Holds G C Anything (sync (wired V c client indexer) s key)
  sync-wired-Holds s key bounds e =
      sync-Holds G C L (wired V c client indexer) ns name bounds wired-NotebookBounds s key e
