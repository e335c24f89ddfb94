-- ===== src/Clientset/Fake.antt =====
-- pkg/clientset/versioned/typed/jupyter/v1/fake: the client of notebooks for tests. Each method makes an
-- action of client-go's testing package and asks the object tracker behind `Invokes` for the answer.
pub mod Laws
use jupyter_operator.Common.{String, Bool, Option, none, some, List, [], ◌∷◌, ◌++◌, if◌then◌else◌}
use jupyter_operator.Kube.{Error}
use jupyter_operator.Prog.{Prog, ret, crash, call, ◌>>=◌}
use jupyter_operator.Types.{Notebook}
use jupyter_operator.Registration.{GroupVersionResource}
use jupyter_operator.Clientset.{Vendored}

pub record GroupVersionKind : Type 0 where
  pub group : String
  pub version : String
  pub kind : String

abbrev pub notebooks_resource : GroupVersionResource
notebooks_resource = record { group = "jupyter"; version = "v1"; resource = "notebooks" }

abbrev pub notebooks_gvk : GroupVersionKind
notebooks_gvk = record { group = "jupyter"; version = "v1"; kind = "Notebook" }

-- What the code uses of `labels`, of `testing.ExtractFromListOptions` and of the list type.
pub record Selection (V : Vendored) : Type 1 where
  pub Selector : Type 0
  pub ListMeta : Type 0
  pub label_of : V.ListOptions → Option Selector
  pub everything : Selector
  pub matches : Selector → List (String × String) → Bool
  pub list_meta : V.NotebookList → ListMeta
  pub items : V.NotebookList → List Notebook
  pub make_list : ListMeta → List Notebook → V.NotebookList

module _ (V : Vendored) where
  -- The constructors of actions, with their arguments.
  pub data Action : Type 0 where
    get_action : GroupVersionResource → String → String → Action
    list_action : GroupVersionResource → GroupVersionKind → String → V.ListOptions → Action
    watch_action : GroupVersionResource → String → V.ListOptions → Action
    create_action : GroupVersionResource → String → Notebook → Action
    update_action : GroupVersionResource → String → Notebook → Action
    update_subresource_action : GroupVersionResource → String → String → Notebook → Action
    delete_action : GroupVersionResource → String → String → Action
    delete_collection_action : GroupVersionResource → String → V.ListOptions → Action
    patch_subresource_action :
        GroupVersionResource → String → String → String → List String → Action

  -- An object behind `runtime.TrackedObject`. The second argument of `Invokes` says by its type what is
  -- returned if no reactor answers.
  pub data TrackedObject : Type 0 where
    a_notebook : Notebook → TrackedObject
    a_list : V.NotebookList → TrackedObject
    another : TrackedObject

  pub data Kind : Type 0 where
    notebook_kind list_kind : Kind

  pub record Tracker (W : Type 0) : Type 0 where
    pub invokes : Action → Kind → W → (Option TrackedObject × Option Error) × W
    pub invokes_watch : Action → W → (Option V.Watch × Option Error) × W

module _ {V : Vendored} (S : Selection V) where
  -- `if label == nil { label = labels.Everything() }`
  abbrev pub label_or_everything : Option S.Selector → S.Selector
  label_or_everything none = S.everything
  label_or_everything (some label) = label

  -- The loop, which appends to `list.Items`.
  unfoldable pub append_matching : S.Selector → List Notebook → List Notebook → List Notebook
  append_matching label list [] = list
  append_matching label list (item ∷ rest) =
      let matched = append_matching label (list ++ item ∷ []) rest in
      let skipped = append_matching label list rest in
      if S.matches label item.meta.labels then matched else skipped

  unfoldable pub selected : S.Selector → V.NotebookList → V.NotebookList
  selected label l = S.make_list (S.list_meta l) (append_matching label [] (S.items l))

  abbrev pub as_list :
      {W : Type 0}
      → V.ListOptions
      → Option (TrackedObject V) × Option Error
      → Prog W (Option V.NotebookList × Option Error)
  as_list opts (none, e) = ret (none, e)
  as_list opts (some (a_list l), e) =
      ret (some (selected (label_or_everything (S.label_of opts)) l), e)
  as_list opts (some _, e) = crash "interface conversion"

module _ {V : Vendored} {W : Type 0} where
  -- `if obj == nil { return nil, err }; return obj.(*jupyterv1.Notebook), err`
  abbrev pub notebook_or_nil :
      Option (TrackedObject V) × Option Error → Prog W (Option Notebook × Option Error)
  notebook_or_nil (none, e) = ret (none, e)
  notebook_or_nil (some (a_notebook n), e) = ret (some n, e)
  notebook_or_nil (some _, e) = crash "interface conversion"

  module _ (fake : Tracker V W) (ns : String) where
    unfoldable pub fake_list :
        Selection V → V.ListOptions → Prog W (Option V.NotebookList × Option Error)
    fake_list S opts =
        call (fake.invokes (list_action notebooks_resource notebooks_gvk ns opts) list_kind)
        >>= as_list S opts

    unfoldable pub fake_get : String → V.GetOptions → Prog W (Option Notebook × Option Error)
    fake_get name options =
        call (fake.invokes (get_action notebooks_resource ns name) notebook_kind)
        >>= notebook_or_nil

    unfoldable pub fake_watch : V.ListOptions → Prog W (Option V.Watch × Option Error)
    fake_watch opts = call (fake.invokes_watch (watch_action notebooks_resource ns opts))

    unfoldable pub fake_create : Notebook → Prog W (Option Notebook × Option Error)
    fake_create notebook =
        call (fake.invokes (create_action notebooks_resource ns notebook) notebook_kind)
        >>= notebook_or_nil

    unfoldable pub fake_update : Notebook → Prog W (Option Notebook × Option Error)
    fake_update notebook =
        call (fake.invokes (update_action notebooks_resource ns notebook) notebook_kind)
        >>= notebook_or_nil

    unfoldable pub fake_update_status : Notebook → Prog W (Option Notebook × Option Error)
    fake_update_status notebook =
        call (
          fake.invokes (update_subresource_action notebooks_resource "status" ns notebook)
            notebook_kind)
        >>= notebook_or_nil

    unfoldable pub fake_delete : String → V.DeleteOptions → Prog W (Option Error)
    fake_delete name options =
        call (fake.invokes (delete_action notebooks_resource ns name) notebook_kind) >>= λ result.
        ret result.1

    unfoldable pub fake_delete_collection : V.DeleteOptions → V.ListOptions → Prog W (Option Error)
    fake_delete_collection options list_options =
        call (fake.invokes (delete_collection_action notebooks_resource ns list_options) list_kind)
        >>= λ result. ret result.1

    unfoldable pub fake_patch :
        String → V.PatchType → String → List String → Prog W (Option Notebook × Option Error)
    fake_patch name pt bytes subresources =
        call (
          fake.invokes (patch_subresource_action notebooks_resource ns name bytes subresources)
            notebook_kind)
        >>= notebook_or_nil
