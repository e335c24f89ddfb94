-- ===== src/Informers/Notebooks/Laws.antt =====
-- What `ForResource` of pkg/informers/externalversions/generic.go gives.
use jupyter_operator.Common.{none, ◌≡◌, refl, ap, ◌∙◌, lookup}
use jupyter_operator.Kube.{ok}
use jupyter_operator.Registration.{
  GroupVersionResource, scheme_group_version, with_resource, group_resource,
}
use jupyter_operator.Clientset.{Vendored, RestClient, list_request, watch_request, new_notebooks}
use jupyter_operator.Informers.{or_else, informer_for, reuse, add_informer}
use jupyter_operator.Informers.Laws.{informer_for_again}
use jupyter_operator.Informers.Notebooks.{
  Cache, ListWatch, SharedFactory, notebook_type_name, tweaked, list_watch, default_informer,
  new_filtered_notebook_informer, informer, jupyter_group, group_v1, version_notebooks, found,
  for_resource,
}

abbrev pub notebooks_gvr : GroupVersionResource
notebooks_gvr = with_resource scheme_group_version "notebooks"

module _ {V : Vendored} {W : Type 0} (C : Cache V W) (rest : RestClient V W)
    (factory : SharedFactory V W C.Informer) where
  -- A factory whose clients make REST requests.
  abbrev over_rest : SharedFactory V W C.Informer
  over_rest = record factory { client = λ ns. new_notebooks V rest ns }

  -- Asked for the notebooks of the group, `ForResource` of a factory with no informer for them makes one,
  -- whose lists and watches are the REST requests for the notebooks of the factory's namespace, with
  -- the factory's changes of the options, and whose resync period is the one set for notebooks or else
  -- the default. Asked again, it gives the same informer and leaves the factory as it is.
  pub for_resource_lem :
      lookup notebook_type_name factory.informers ≡ none
      → (lw : ListWatch V W) × ((for_resource C notebooks_gvr over_rest).0
          ≡ ok (record {
            resource = group_resource notebooks_gvr;
            informer =
                C.new_shared_index_informer lw
                  (or_else (lookup notebook_type_name factory.custom_resync) factory.default_resync)
                  C.namespace_index;
          }))
        × (lw.list_func ≡ λ options.
            rest.into_list
              (list_request V factory.namespace (tweaked factory.tweak_list_options options)))
        × (lw.watch_func ≡ λ options.
            rest.watch
              (watch_request V factory.namespace (tweaked factory.tweak_list_options options)))
        × (for_resource C notebooks_gvr (for_resource C notebooks_gvr over_rest).1
            ≡ for_resource C notebooks_gvr over_rest)
  unfolding for_resource informer informer_for jupyter_group group_v1 version_notebooks
  for_resource_lem new' =
      let own = version_notebooks C (group_v1 C (jupyter_group C over_rest)) in
      (
        list_watch over_rest.client factory.namespace factory.tweak_list_options,
        ap
              (λ known. ok (record {
                resource = group_resource notebooks_gvr;
                informer = (reuse notebook_type_name (default_informer C own) over_rest known).0;
              }))
              new'
            ∙ (unfold reuse add_informer default_informer new_filtered_notebook_informer in refl),
        unfold list_watch new_notebooks in refl,
        unfold list_watch new_notebooks in refl,
        ap (found C notebooks_gvr) (
            informer_for_again notebook_type_name (default_informer C own)
              (default_informer C
                (version_notebooks C (group_v1 C (jupyter_group C (informer C own over_rest).1))))
              over_rest),
      )
