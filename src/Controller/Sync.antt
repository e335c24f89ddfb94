-- ===== src/Controller/Sync.antt =====
-- `sync` of pkg/controller/controller.go: one key of the work queue.
--
-- A notebook is a value, so `DeepCopy` is the notebook itself and what is written to the copy is not
-- seen in the informer's cache.
use mathlib.Core.Option
use jupyter_operator.Common.{
  pos, ℕ, String, false, ◌==◌, ◌||◌, concat, Option, none, some, List, [], ◌∷◌, if◌then◌else◌,
}
use jupyter_operator.Prog.{Prog, ret, call, read, ◌>>=◌}
use jupyter_operator.Prog.Parallel.{Schedule}
use jupyter_operator.Kube.{Error, Result, ok, err, new_error, is_not_found, empty_meta}
use jupyter_operator.Types.{
  notebook_kind, phase_pending, phase_running, phase_failed, Notebook, set_defaults,
}
use jupyter_operator.Types.Validate.{validate}
use jupyter_operator.Controller.{Controller}
use jupyter_operator.Controller.Resources.{reconcile_notebook_resources}
use jupyter_operator.Controller.Phase.{set_notebook_phase}

-- jupyterv1.SchemeGroupVersion.String()
abbrev pub group_version : String
group_version = "jupyter.squat.ai/v1"

-- `new(jupyterv1.Notebook)` with the name, the namespace and the time of deletion.
unfoldable pub deleted_notebook : String → String → ℕ → Notebook
deleted_notebook namespace name time = record {
  api_version = "";
  kind = "";
  meta = record empty_meta { name = name; namespace = namespace; deletion_timestamp = some time };
  spec = record {
    flavor = none;
    gpu = false;
    host = none;
    ingress = none;
    packages = [];
    password = none;
    service_account_name = none;
    tls = none;
  };
  status = record { observed_generation = pos 0; phase = "" };
}

-- `if n.Kind == "" { … }`
unfoldable pub set_kind : Notebook → Notebook
set_kind n =
    if n.kind == "" then record n { kind = notebook_kind; api_version = group_version } else n

abbrev pub defaults_error : String → Error → Error
defaults_error key e =
    new_error (concat "failed to set defaults for " (concat key (concat ": " e.text)))

module _ {W Certificate PrivateKey : Type 0} (c : Controller W Certificate PrivateKey) where
  -- The branch of a key whose notebook is gone.
  unfoldable pub sync_deleted : (ℕ → Schedule) → String → String → Prog W (Option Error)
  sync_deleted s namespace name = do
    time ← read c.now
    reconcile_notebook_resources c s (deleted_notebook namespace name time)

  -- The phase while the resources are being reconciled.
  unfoldable pub start_phase : Notebook → Prog W (Notebook × Option Error)
  start_phase n =
      if n.status.phase == phase_running || n.status.phase == phase_failed
      then ret (n, none)
      else set_notebook_phase c n phase_pending

  -- The phase after that, and the error of `sync`.
  unfoldable pub end_phase : Notebook → Option Error → Prog W (Option Error)
  end_phase n (some e) = set_notebook_phase c n phase_failed >>= λ _. ret (some e)
  end_phase n none = set_notebook_phase c n phase_running >>= λ _. ret none

  -- From the phase on: the notebook is valid and its defaults are set.
  unfoldable pub sync_resources : (ℕ → Schedule) → Notebook → Prog W (Option Error)
  sync_resources s n = start_phase n >>= λ started.
      reconcile_notebook_resources c s started.0 >>= end_phase started.0

  -- What follows the comparison of the defaulted spec with the old one.
  unfoldable pub sync_defaulted :
      (ℕ → Schedule) → String → Notebook → List String → Prog W (Option Error)
  sync_defaulted s key n [] = sync_resources s n
  sync_defaulted s key n (diff ∷ diffs) =
      call ((c.notebooks n.meta.namespace).update n) >>= λ updated.
      ret (Option.map (defaults_error key) updated)

  -- What follows the validation.
  unfoldable pub sync_validated :
      (ℕ → Schedule) → String → Notebook → Option Error → Prog W (Option Error)
  sync_validated s key notebook (some e) =
      set_notebook_phase c notebook phase_failed >>= λ _. ret (some e)
  sync_validated s key notebook none =
      let n = set_kind (set_defaults notebook).0 in
      sync_defaulted s key n (c.vendor.spec_diff n.spec notebook.spec)

  -- From `DeepCopy` on.
  unfoldable pub sync_notebook : (ℕ → Schedule) → String → Notebook → Prog W (Option Error)
  sync_notebook s key notebook =
      sync_validated s key notebook (validate c.vendor.validation notebook)

  -- What follows the lister's answer.
  unfoldable pub sync_found :
      (ℕ → Schedule) → String → String → String → Result Notebook → Prog W (Option Error)
  sync_found s key namespace name (ok notebook) = sync_notebook s key notebook
  sync_found s key namespace name (err e) =
      if is_not_found e then sync_deleted s namespace name else ret (some e)

  -- What follows the split of the key.
  unfoldable pub sync_split :
      (ℕ → Schedule) → String → Result (String × String) → Prog W (Option Error)
  sync_split s key (err e) = ret (some e)
  sync_split s key (ok (namespace, name)) =
      read (c.notebook_lister.get namespace name) >>= sync_found s key namespace name

  unfoldable pub sync : (ℕ → Schedule) → String → Prog W (Option Error)
  sync s key = sync_split s key (c.vendor.split_key key)
