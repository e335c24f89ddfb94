-- ===== src/Controller/Crd.antt =====
-- `createCRD` and `initCRD` of pkg/controller/controller.go.
pub mod Laws
use jupyter_operator.Common.{
  ℕ, String, Bool, true, false, ◌==◌, concat, Option, none, some, List, [], ◌∷◌, if◌then◌else◌,
}
use jupyter_operator.Prog.{Prog, ret, call, read, ◌>>=◌}
use jupyter_operator.Kube.{Error, Result, ok, err, new_error, is_already_exists}

-- An entry of `crd.Status.Conditions`.
pub record Condition : Type 0 where
  pub type : String
  pub status : String

-- What `createCRD` passes to `crdutils.NewCustomResourceDefinition`; `scale` is the subresource that
-- it then clears.
pub record CrdConfig : Type 0 where
  pub spec_definition_name : String
  pub enable_validation : Bool
  pub resource_scope : String
  pub group : String
  pub kind : String
  pub version : String
  pub plural : String
  pub short_names : List String
  pub keeps_scale : Bool

abbrev pub notebook_crd : CrdConfig
notebook_crd = record {
  spec_definition_name = "github.com/squat/jupyter-operator/pkg/apis/jupyter/v1.Notebook";
  enable_validation = true;
  resource_scope = "Namespaced";
  group = "jupyter.squat.ai";
  kind = "Notebook";
  version = "v1";
  plural = "notebooks";
  short_names = "nb" ∷ "notebook" ∷ [];
  keeps_scale = false;
}

-- NotebookName
abbrev pub notebook_name : String
notebook_name = "notebooks.jupyter.squat.ai"

-- The API for custom resource definitions, and `wait.PollUntil` with an interval in milliseconds
-- under `stopableTimer` with a limit in seconds: its error, or none once the condition has held.
pub record CrdApi (W : Type 0) : Type 0 where
  pub create : CrdConfig → W → Option Error × W
  pub get : String → W → Result (List Condition)
  pub poll_until : (interval limit : ℕ) → Prog W (Result Bool) → Prog W (Option Error)

-- The loop over the conditions.
unfoldable pub established : List Condition → Bool
established [] = false
established (cond ∷ conds) =
    let rest = established conds in
    if cond.type == "Established" then (if cond.status == "True" then true else rest) else rest

-- What `createCRD` returns for the error of `Create`.
unfoldable pub creation_error : Option Error → Option Error
creation_error none = none
creation_error (some e) =
    if is_already_exists e then none else some (new_error (concat "failed to create CRD: " e.text))

-- What the first poll makes of that.
unfoldable pub creation_done : Option Error → Result Bool
creation_done (some e) = ok false
creation_done none = ok true

-- What the second poll makes of the definition that it gets.
unfoldable pub crd_ready : Result (List Condition) → Result Bool
unfolding established
crd_ready (err e) = ok false
crd_ready (ok conds) = ok (established conds)

unfoldable pub establishing_error : Option Error → Option Error
establishing_error none = none
establishing_error (some e) =
    some (new_error (concat "failed waiting for CRD to be created: " e.text))

module _ {W : Type 0} (api : CrdApi W) where
  unfoldable pub create_crd : Prog W (Option Error)
  create_crd = call (api.create notebook_crd) >>= λ created. ret (creation_error created)

  -- The condition of the first poll.
  unfoldable pub crd_created : Prog W (Result Bool)
  crd_created = create_crd >>= λ created. ret (creation_done created)

  -- The condition of the second.
  unfoldable pub crd_established : Prog W (Result Bool)
  crd_established = read (api.get notebook_name) >>= λ crd. ret (crd_ready crd)

  -- What follows the first poll.
  unfoldable pub after_creation : Option Error → Prog W (Option Error)
  after_creation (some e) = ret (some (new_error (concat "failed creating CRD: " e.text)))
  after_creation none =
      api.poll_until 500 60 crd_established >>= λ waiting. ret (establishing_error waiting)

  unfoldable pub init_crd : Prog W (Option Error)
  init_crd = api.poll_until 500 60 crd_created >>= after_creation
