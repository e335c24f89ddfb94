-- ===== src/Clientset.antt =====
-- pkg/clientset/versioned/typed/jupyter/v1/notebook.go: the client of notebooks in one namespace, as
-- the REST requests that it makes.
--
-- `RestClient` is `rest.Interface` with what follows its builder: `Do().Into(result)`, for a notebook
-- and for a list, `Do().Error()` and `Watch()`.
pub mod Refines
pub mod Fake
pub mod Constructors
use jupyter_operator.Common.{String, Option, none, some, List, [], ◌∷◌}
use jupyter_operator.Kube.{Error}
use jupyter_operator.Types.{Notebook}
use jupyter_operator.Controller.{NotebookClient}

-- The options of `metav1`, `types.PatchType`, `v1.NotebookList` and `watch.Interface`.
pub record Vendored : Type 1 where
  pub GetOptions : Type 0
  pub ListOptions : Type 0
  pub DeleteOptions : Type 0
  pub PatchType : Type 0
  pub NotebookList : Type 0
  pub Watch : Type 0
  -- `opts.Watch = true`
  pub with_watch : ListOptions → ListOptions

module _ (V : Vendored) where
  pub data Verb : Type 0 where
    get post put delete : Verb
    patch : V.PatchType → Verb

  pub data Params : Type 0 where
    get_params : V.GetOptions → Params
    list_params : V.ListOptions → Params

  pub data Body : Type 0 where
    notebook_body : Notebook → Body
    options_body : V.DeleteOptions → Body
    patch_body : String → Body

  -- What the methods of `*rest.Request` collect.
  pub record Request : Type 0 where
    pub verb : Verb
    pub namespace : String
    pub resource : String
    pub name : Option String
    pub sub_resources : List String
    pub params : Option Params
    pub body : Option Body

  pub record RestClient (W : Type 0) : Type 0 where
    pub into_notebook : Request → W → (Notebook × Option Error) × W
    pub into_list : Request → W → (V.NotebookList × Option Error) × W
    pub error : Request → W → Option Error × W
    pub watch : Request → W → (Option V.Watch × Option Error) × W

  -- `c.client.Verb().Namespace(c.ns).Resource("notebooks")`
  abbrev pub request : String → Verb → Request
  request ns verb = record {
    verb = verb;
    namespace = ns;
    resource = "notebooks";
    name = none;
    sub_resources = [];
    params = none;
    body = none;
  }

  unfoldable pub get_request : String → String → V.GetOptions → Request
  get_request ns name options = record (request ns get) {
    name = some name;
    params = some (get_params options);
  }

  unfoldable pub list_request : String → V.ListOptions → Request
  list_request ns opts = record (request ns get) { params = some (list_params opts) }

  unfoldable pub watch_request : String → V.ListOptions → Request
  watch_request ns opts = record (request ns get) {
    params = some (list_params (V.with_watch opts));
  }

  unfoldable pub create_request : String → Notebook → Request
  create_request ns notebook = record (request ns post) { body = some (notebook_body notebook) }

  unfoldable pub update_request : String → Notebook → Request
  update_request ns notebook = record (request ns put) {
    name = some notebook.meta.name;
    body = some (notebook_body notebook);
  }

  unfoldable pub update_status_request : String → Notebook → Request
  update_status_request ns notebook = record (request ns put) {
    name = some notebook.meta.name;
    sub_resources = "status" ∷ [];
    body = some (notebook_body notebook);
  }

  unfoldable pub delete_request : String → String → V.DeleteOptions → Request
  delete_request ns name options = record (request ns delete) {
    name = some name;
    body = some (options_body options);
  }

  unfoldable pub delete_collection_request : String → V.DeleteOptions → V.ListOptions → Request
  delete_collection_request ns options list_options = record (request ns delete) {
    params = some (list_params list_options);
    body = some (options_body options);
  }

  unfoldable pub patch_request : String → String → V.PatchType → String → List String → Request
  patch_request ns name pt bytes subresources = record (request ns (patch pt)) {
    sub_resources = subresources;
    name = some name;
    body = some (patch_body bytes);
  }

  -- `notebooks`: the methods of one namespace.
  pub record Notebooks (W : Type 0) : Type 0 where
    pub get_notebook : String → V.GetOptions → W → (Notebook × Option Error) × W
    pub list : V.ListOptions → W → (V.NotebookList × Option Error) × W
    pub watch_notebooks : V.ListOptions → W → (Option V.Watch × Option Error) × W
    pub create : Notebook → W → (Notebook × Option Error) × W
    pub update : Notebook → W → (Notebook × Option Error) × W
    pub update_status : Notebook → W → (Notebook × Option Error) × W
    pub delete_notebook : String → V.DeleteOptions → W → Option Error × W
    pub delete_collection : V.DeleteOptions → V.ListOptions → W → Option Error × W
    pub patch_notebook :
        String → V.PatchType → String → List String → W → (Notebook × Option Error) × W

  unfoldable pub new_notebooks : {W : Type 0} → RestClient W → String → Notebooks W
  unfolding get_request list_request watch_request create_request update_request
      update_status_request delete_request delete_collection_request patch_request
  new_notebooks client ns = record {
    get_notebook = λ name options. client.into_notebook (get_request ns name options);
    list = λ opts. client.into_list (list_request ns opts);
    watch_notebooks = λ opts. client.watch (watch_request ns opts);
    create = λ notebook. client.into_notebook (create_request ns notebook);
    update = λ notebook. client.into_notebook (update_request ns notebook);
    update_status = λ notebook. client.into_notebook (update_status_request ns notebook);
    delete_notebook = λ name options. client.error (delete_request ns name options);
    delete_collection =
        λ options list_options. client.error (delete_collection_request ns options list_options);
    patch_notebook = λ name pt bytes subresources.
        client.into_notebook (patch_request ns name pt bytes subresources);
  }

-- The two methods that the controller calls, which drops the object that they return.
abbrev pub used_by_controller : {V : Vendored} {W : Type 0} → Notebooks V W → NotebookClient W
used_by_controller notebooks = record {
  update = λ n w. ((notebooks.update n w).0.1, (notebooks.update n w).1);
  update_status = λ n w. ((notebooks.update_status n w).0.1, (notebooks.update_status n w).1);
}
