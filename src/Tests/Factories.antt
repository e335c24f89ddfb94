-- ===== src/Tests/Factories.antt =====
-- Examples for the constructors and the client for tests of pkg/clientset, and for the informers of
-- notebooks of pkg/informers.
use jupyter_operator.Common.{
  ℕ, String, true, none, some, [], ◌∷◌, ◌≡◌, ◌≢◌, refl, ◌||◌, ltb, is_some, lookup, ◌==◌,
  if◌then◌else◌,
}
use jupyter_operator.Kube.{new_error, ok, err}
use jupyter_operator.Prog.{value}
use jupyter_operator.Prog.Run.{run}
use jupyter_operator.Types.{Notebook}
use jupyter_operator.Registration.{
  scheme_group_version, with_resource, group_resource, resource, add_known_types, init_scheme,
}
use jupyter_operator.Clientset.{new_notebooks, list_request, watch_request}
use jupyter_operator.Clientset.Constructors.{
  RestVendor, Config, or_die, set_config_defaults, with_limiter, new_jupyter_for_config,
  new_for_config, new_for_config_or_die, new_jupyter, new_client_set, discovery_client,
  rest_client_of, jupyter_v1, jupyter_default,
}
use jupyter_operator.Clientset.Constructors.Laws.{new_for_config-or_die}
use jupyter_operator.Clientset.Fake.{
  Selection, Action, a_notebook, a_list, list_kind, Tracker, list_action, get_action,
  notebooks_resource, notebooks_gvk, append_matching, selected, fake_list, fake_get, fake_watch,
  fake_create, fake_update, fake_update_status, fake_delete, fake_delete_collection, fake_patch,
  notebook_kind, watch_action, create_action, update_action, update_subresource_action,
  delete_action, delete_collection_action, patch_subresource_action,
}
use jupyter_operator.Clientset.Fake.Laws.{listed, fake_list_lem}
use jupyter_operator.Informers.Notebooks.{Cache, ListWatch, SharedFactory, tweaked, for_resource}
use jupyter_operator.Informers.Notebooks.Laws.{notebooks_gvr, for_resource_lem}
use jupyter_operator.Tests.World.{World, demo}
use jupyter_operator.Tests.Clientset.{plain, recording_client, demo_index}

-- A limiter is its rate, and a client its API path.
abbrev text_rest : RestVendor
text_rest = record {
  Limiter = ℕ;
  Serializer = Unit;
  Rest = String;
  Discovery = String;
  Float32 = ℕ;
  is_above_zero = λ x. ltb 0 x;
  new_token_bucket = λ qps burst. qps;
  direct_codecs = tt;
  default_user_agent = "operator";
  rest_client_for = λ c. if c.user_agent == "" then err (new_error "no agent") else ok c.api_path;
  new_discovery = λ c. ok c.api_path;
  discovery_of = λ rest. rest;
}

abbrev fast_config : Config text_rest
fast_config = record {
  group_version = none;
  api_path = "";
  negotiated_serializer = none;
  user_agent = "";
  rate_limiter = none;
  qps = 50;
  burst = 100;
}

new_for_config-or_die_example :
    (or_die (new_for_config text_rest fast_config)
      ≡ new_for_config_or_die text_rest (with_limiter text_rest fast_config))
    × ((set_config_defaults text_rest (with_limiter text_rest fast_config)).rate_limiter
        ≡ (with_limiter text_rest fast_config).rate_limiter)
    × ((is_some fast_config.rate_limiter || ltb 0 fast_config.qps)
        ≡ is_some (with_limiter text_rest fast_config).rate_limiter)
new_for_config-or_die_example = new_for_config-or_die text_rest fast_config

-- The clients are made with the paths that each sets.
made_clients :
    new_for_config text_rest fast_config
    ≡ ok (record { discovery = ""; jupyter = record { rest_client = "/apis" } })
unfolding new_for_config new_jupyter_for_config set_config_defaults with_limiter
made_clients = refl

no_clients : (rest_client_of text_rest none ≡ none) × (discovery_client text_rest none ≡ none)
unfolding rest_client_of discovery_client
no_clients = (refl, refl)

one_client :
    jupyter_v1 text_rest (new_client_set text_rest "rest")
    ≡ jupyter_default text_rest (new_client_set text_rest "rest")
unfolding jupyter_v1 jupyter_default new_client_set new_jupyter
one_client = refl

-- A selector is a name of a label.
abbrev by_label : Selection plain
by_label = record {
  Selector = String;
  ListMeta = Unit;
  label_of = λ opts. if opts then some "app" else none;
  everything = "";
  matches = λ label labels. label == "" || is_some (lookup label labels);
  list_meta = λ l. tt;
  items = λ l. l;
  make_list = λ meta items. items;
}

abbrev labelled_demo : Notebook
labelled_demo = record demo { meta = record demo.meta { labels = ("app", "demo") ∷ [] } }

abbrev demo_tracker : Tracker plain World
demo_tracker = record {
  invokes = λ action kind w. elim kind [
    | list_kind ↦ ((some (a_list (demo ∷ labelled_demo ∷ [])), none), "list" ∷ w)
    | notebook_kind ↦ ((some (a_notebook demo), none), "notebook" ∷ w)
  ];
  invokes_watch = λ action w. ((none, none), w);
}

one_labelled_answer : run (fake_list demo_tracker "default" by_label true) [] ≡ (
  listed by_label "app"
      (demo_tracker.invokes
        (list_action notebooks_resource notebooks_gvk "default" true)
        list_kind
        []).0,
  "list" ∷ [],
)
one_labelled_answer = fake_list_lem by_label demo_tracker "default" true []

one_listed :
    (run (fake_list demo_tracker "default" by_label true) []).0
    ≡ value (some (labelled_demo ∷ []), none)
unfolding fake_list selected append_matching lookup
one_listed = refl

-- The actions of the client for tests are for another group than the one that its scheme registers.
other_group : notebooks_resource.group ≢ (resource "notebooks").group
other_group e = cc

registered :
    (init_scheme (record { known = []; option_versions = [] })).known
    ≡ (scheme_group_version, "Notebook") ∷ (scheme_group_version, "NotebookList") ∷ []
unfolding init_scheme add_known_types
registered = refl

-- An informer is its list and watch functions.
abbrev plain_cache : Cache plain World
plain_cache = record {
  Informer = ListWatch plain World × ℕ;
  Indexers = Unit;
  GenericLister = Unit;
  Selector = Unit;
  namespace_index = tt;
  new_shared_index_informer = λ lw resync indexers. (lw, resync);
  get_indexer = λ i. demo_index;
  new_generic_lister = λ i r. tt;
  print_resource = λ r. r.resource;
}

abbrev demo_factory : SharedFactory plain World (ListWatch plain World × ℕ)
demo_factory = record {
  client = λ ns. new_notebooks plain recording_client ns;
  namespace = "default";
  tweak_list_options = some (λ opts. true);
  default_resync = 300;
  custom_resync = [];
  informers = [];
  started_informers = [];
}

for_resource_lem_example :
    (lw : ListWatch plain World) × ((for_resource plain_cache notebooks_gvr demo_factory).0
      ≡ ok (record { resource = group_resource notebooks_gvr; informer = (lw, 300) }))
    × (lw.list_func ≡ λ options.
        recording_client.into_list
          (list_request plain "default" (tweaked demo_factory.tweak_list_options options)))
    × (lw.watch_func ≡ λ options.
        recording_client.watch
          (watch_request plain "default" (tweaked demo_factory.tweak_list_options options)))
    × (for_resource plain_cache notebooks_gvr
          (for_resource plain_cache notebooks_gvr demo_factory).1
        ≡ for_resource plain_cache notebooks_gvr demo_factory)
unfolding lookup
for_resource_lem_example = for_resource_lem plain_cache recording_client demo_factory refl

other_resource :
    (for_resource plain_cache (with_resource scheme_group_version "secrets") demo_factory).0
    ≡ err (new_error "no informer found for secrets")
unfolding for_resource
other_resource = refl

-- The verbs of the other methods.
abbrev named_action : Action plain → String
named_action (get_action r ns name) = "get"
named_action (list_action r k ns opts) = "list"
named_action (watch_action r ns opts) = "watch"
named_action (create_action r ns n) = "create"
named_action (update_action r ns n) = "update"
named_action (update_subresource_action r sub ns n) = sub
named_action (delete_action r ns name) = "delete"
named_action (delete_collection_action r ns opts) = "delete-collection"
named_action (patch_subresource_action r ns name bytes subs) = "patch"

abbrev naming_tracker : Tracker plain World
naming_tracker = record {
  invokes = λ action kind w. ((none, none), named_action action ∷ w);
  invokes_watch = λ action w. ((none, none), named_action action ∷ w);
}

all_methods :
    ((run (fake_get naming_tracker "ns" "demo" tt) []).1 ≡ "get" ∷ [])
    × ((run (fake_watch naming_tracker "ns" true) []).1 ≡ "watch" ∷ [])
    × ((run (fake_create naming_tracker "ns" demo) []).1 ≡ "create" ∷ [])
    × ((run (fake_update naming_tracker "ns" demo) []).1 ≡ "update" ∷ [])
    × ((run (fake_update_status naming_tracker "ns" demo) []).1 ≡ "status" ∷ [])
    × ((run (fake_delete naming_tracker "ns" "demo" tt) []).1 ≡ "delete" ∷ [])
    × ((run (fake_delete_collection naming_tracker "ns" tt true) []).1 ≡ "delete-collection" ∷ [])
    × ((run (fake_patch naming_tracker "ns" "demo" tt "{}" []) []).1 ≡ "patch" ∷ [])
unfolding fake_get fake_watch fake_create fake_update fake_update_status fake_delete
    fake_delete_collection fake_patch
all_methods = (refl, refl, refl, refl, refl, refl, refl, refl)
