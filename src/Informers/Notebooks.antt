-- ===== src/Informers/Notebooks.antt =====
-- pkg/informers/externalversions: the informer of notebooks, jupyter/v1/notebook.go, what leads to it,
-- jupyter/interface.go and jupyter/v1/interface.go, and generic.go.
pub mod Laws
use jupyter_operator.Common.{
  ℕ, String, concat, Bool, ◌&&◌, Option, none, some, List, ◌==◌, if◌then◌else◌,
}
use jupyter_operator.Kube.{Error, new_error, Result, ok, err}
use jupyter_operator.Types.{Notebook}
use jupyter_operator.Kube.Resource.{Lister}
use jupyter_operator.Registration.{
  GroupResource, GroupVersionResource, scheme_group_version, with_resource, group_resource,
}
use jupyter_operator.Clientset.{Vendored, Notebooks}
use jupyter_operator.Informers.{Factory, informer_for}
use jupyter_operator.Listers.{Indexer, new_notebook_lister}

-- `cache.ListWatch`
pub record ListWatch (V : Vendored) (W : Type 0) : Type 0 where
  pub list_func : V.ListOptions → W → (V.NotebookList × Option Error) × W
  pub watch_func : V.ListOptions → W → (Option V.Watch × Option Error) × W

-- The package cache of client-go, and `%v` of a resource.
pub record Cache (V : Vendored) (W : Type 0) : Type 1 where
  pub Informer : Type 0
  pub Indexers : Type 0
  pub GenericLister : Type 0
  pub Selector : Type 0
  pub namespace_index : Indexers
  pub new_shared_index_informer : ListWatch V W → ℕ → Indexers → Informer
  pub get_indexer : Informer → Indexer W Selector
  pub new_generic_lister : Indexer W Selector → GroupResource → GenericLister
  pub print_resource : GroupVersionResource → String

-- The name of `reflect.TypeOf(&jupyterv1.Notebook{})`.
abbrev pub notebook_type_name : String
notebook_type_name = "*v1.Notebook"

-- `if tweakListOptions != nil { tweakListOptions(&options) }`
abbrev pub tweaked {ℓ} : {A : Type ℓ} → Option (A → A) → A → A
tweaked none options = options
tweaked (some tweak) options = tweak options

module _ (V : Vendored) (W : Type 0) where
  -- `client.JupyterV1().Notebooks`
  abbrev pub Client : Type 0
  Client = String → Notebooks V W

  abbrev pub Tweak : Type 0
  Tweak = V.ListOptions → V.ListOptions

  abbrev pub SharedFactory : Type 0 → Type 0
  SharedFactory Informer = Factory Client Informer Tweak

  -- `notebookInformer`, and with it `group` and `version`, which have the same fields. The factory is the
  -- state that is passed.
  pub record NotebookInformer : Type 0 where
    pub namespace : String
    pub tweak_list_options : Option Tweak

module _ {V : Vendored} {W : Type 0} where
  unfoldable pub list_watch : Client V W → String → Option (Tweak V W) → ListWatch V W
  list_watch client namespace tweak = record {
    list_func = λ options. (client namespace).list (tweaked tweak options);
    watch_func = λ options. (client namespace).watch_notebooks (tweaked tweak options);
  }

  module _ (C : Cache V W) where
    unfoldable pub new_filtered_notebook_informer :
        Client V W → String → ℕ → C.Indexers → Option (Tweak V W) → C.Informer
    unfolding list_watch
    new_filtered_notebook_informer client namespace resync indexers tweak =
        C.new_shared_index_informer (list_watch client namespace tweak) resync indexers

    unfoldable pub new_notebook_informer : Client V W → String → ℕ → C.Indexers → C.Informer
    unfolding new_filtered_notebook_informer
    new_notebook_informer client namespace resync indexers =
        new_filtered_notebook_informer client namespace resync indexers none

    unfoldable pub default_informer : NotebookInformer V W → Client V W → ℕ → C.Informer
    unfolding new_filtered_notebook_informer
    default_informer i client resync =
        new_filtered_notebook_informer client i.namespace resync C.namespace_index
          i.tweak_list_options

    -- `(f *notebookInformer) Informer()`
    unfoldable pub informer :
        NotebookInformer V W
        → SharedFactory V W C.Informer
        → C.Informer × SharedFactory V W C.Informer
    informer i factory = informer_for notebook_type_name (default_informer i) factory

    -- `(f *notebookInformer) Lister()`
    unfoldable pub lister :
        NotebookInformer V W
        → SharedFactory V W C.Informer
        → Lister W Notebook × SharedFactory V W C.Informer
    lister i factory =
        let (found, factory') = informer i factory in
        (new_notebook_lister (C.get_indexer found), factory')

    -- `f.Jupyter()`, of which `V1()` and `Notebooks()` pass the fields on.
    unfoldable pub jupyter_group : SharedFactory V W C.Informer → NotebookInformer V W
    jupyter_group factory = record {
      namespace = factory.namespace;
      tweak_list_options = factory.tweak_list_options;
    }

    unfoldable pub group_v1 : NotebookInformer V W → NotebookInformer V W
    group_v1 g = record { namespace = g.namespace; tweak_list_options = g.tweak_list_options }

    unfoldable pub version_notebooks : NotebookInformer V W → NotebookInformer V W
    version_notebooks v = record {
      namespace = v.namespace;
      tweak_list_options = v.tweak_list_options;
    }

    pub record GenericInformer : Type 0 where
      pub informer : C.Informer
      pub resource : GroupResource

    -- `(f *genericInformer) Lister()`
    unfoldable pub generic_lister : GenericInformer → C.GenericLister
    generic_lister g = C.new_generic_lister (C.get_indexer g.informer) g.resource

    -- Go compares structs field by field.
    abbrev pub same_resource : GroupVersionResource → GroupVersionResource → Bool
    same_resource a b = a.group == b.group && a.version == b.version && a.resource == b.resource

    abbrev pub found :
        GroupVersionResource
        → C.Informer × SharedFactory V W C.Informer
        → Result GenericInformer × SharedFactory V W C.Informer
    found resource (i, factory) =
        (ok (record { resource = group_resource resource; informer = i }), factory)

    unfoldable pub for_resource :
        GroupVersionResource
        → SharedFactory V W C.Informer
        → Result GenericInformer × SharedFactory V W C.Informer
    for_resource resource factory =
        if same_resource resource (with_resource scheme_group_version "notebooks")
        then found resource
            (informer (version_notebooks (group_v1 (jupyter_group factory))) factory)
        else (
          err (new_error (concat "no informer found for " (C.print_resource resource))),
          factory,
        )
