-- ===== src/Controller/Phase.antt =====
-- `setNotebookPhase` of pkg/controller/handlers.go.
use jupyter_operator.Common.{String, ◌==◌, Option, none, if◌then◌else◌}
use jupyter_operator.Prog.{Prog, ret, call, ◌>>=◌}
use jupyter_operator.Kube.{Error}
use jupyter_operator.Types.{Notebook}
use jupyter_operator.Controller.{Controller}

abbrev pub with_phase : Notebook → String → Notebook
with_phase n phase = record n { status = record n.status { phase = phase } }

module _ {W Certificate PrivateKey : Type 0} (c : Controller W Certificate PrivateKey) where
  -- The notebook that `n` points at after the call, and the error.
  unfoldable pub set_notebook_phase : Notebook → String → Prog W (Notebook × Option Error)
  set_notebook_phase n phase =
      if n.status.phase == phase
      then ret (n, none)
      else call ((c.notebooks n.meta.namespace).update_status (with_phase n phase)) >>= λ e.
          ret (with_phase n phase, e)
