-- ===== src/Informers.antt =====
-- pkg/informers/externalversions/factory.go: the factory that shares one informer per type.
--
-- A type is known by its name. The mutex of the factory makes each method one atomic step.
pub mod Laws
pub mod Notebooks
use jupyter_operator.Common.{
  ℕ, String, Bool, true, false, Option, none, some, List, [], ◌∷◌, lookup, insert, if◌then◌else◌,
}

module _ (Client Informer Tweak : Type 0) where
  pub record Factory : Type 0 where
    pub client : Client
    pub namespace : String
    pub tweak_list_options : Option Tweak
    pub default_resync : ℕ
    pub custom_resync : List (String × ℕ)
    pub informers : List (String × Informer)
    pub started_informers : List (String × Bool)

abbrev pub SharedInformerOption : Type 0 → Type 0 → Type 0 → Type 0
SharedInformerOption Client Informer Tweak =
    Factory Client Informer Tweak → Factory Client Informer Tweak

-- `m[k]` of a map of Booleans
abbrev pub or_false : Option Bool → Bool
or_false none = false
or_false (some b) = b

abbrev pub is_started : String → List (String × Bool) → Bool
is_started k m = or_false (lookup k m)

-- The value of a key, or a default.
abbrev pub or_else : Option ℕ → ℕ → ℕ
or_else none d = d
or_else (some n) d = n

-- The loop over `resyncConfig`, in the order of its iteration.
unfoldable pub insert_each : List (String × ℕ) → List (String × ℕ) → List (String × ℕ)
insert_each [] m = m
insert_each ((k, v) ∷ config) m = insert_each config (insert k v m)

module _ {Informer : Type 0} where
  -- The loop of `Start`: the informers that are run, in order, and the map `startedInformers` after it.
  unfoldable pub start_each :
      List (String × Informer) → List (String × Bool) → List Informer × List (String × Bool)
  start_each [] started = ([], started)
  start_each ((type, informer) ∷ rest) started =
      let skipped = start_each rest started in
      let run = start_each rest (insert type true started) in
      if is_started type started then skipped else (informer ∷ run.0, run.1)

  -- `cache.WaitForCacheSync` of each informer that has been started.
  unfoldable pub wait_each_started :
      (Informer → Bool) → List (String × Informer) → List (String × Bool) → List (String × Bool)
  wait_each_started synced [] started = []
  wait_each_started synced ((type, informer) ∷ rest) started =
      let others = wait_each_started synced rest started in
      if is_started type started then (type, synced informer) ∷ others else others

module _ {Client Informer Tweak : Type 0} where
  unfoldable pub with_custom_resync_config :
      List (String × ℕ) → SharedInformerOption Client Informer Tweak
  unfolding insert_each
  with_custom_resync_config config factory = record factory {
    custom_resync = insert_each config factory.custom_resync;
  }

  unfoldable pub with_tweak_list_options : Option Tweak → SharedInformerOption Client Informer Tweak
  with_tweak_list_options tweak factory = record factory { tweak_list_options = tweak }

  unfoldable pub with_namespace : String → SharedInformerOption Client Informer Tweak
  with_namespace namespace factory = record factory { namespace = namespace }

  unfoldable pub apply_all :
      List (SharedInformerOption Client Informer Tweak) → SharedInformerOption Client Informer Tweak
  apply_all [] factory = factory
  apply_all (opt ∷ options) factory = apply_all options (opt factory)

  unfoldable pub new_factory_with_options :
      Client → ℕ → List (SharedInformerOption Client Informer Tweak) → Factory Client Informer Tweak
  unfolding apply_all
  new_factory_with_options client resync options = apply_all options (record {
    client = client;
    namespace = "";
    tweak_list_options = none;
    default_resync = resync;
    custom_resync = [];
    informers = [];
    started_informers = [];
  })

  unfoldable pub new_factory : Client → ℕ → Factory Client Informer Tweak
  unfolding new_factory_with_options
  new_factory client resync = new_factory_with_options client resync []

  unfoldable pub new_filtered_factory :
      Client → ℕ → String → Option Tweak → Factory Client Informer Tweak
  unfolding new_factory_with_options with_namespace with_tweak_list_options
  new_filtered_factory client resync namespace tweak =
      new_factory_with_options client resync
        (with_namespace namespace ∷ with_tweak_list_options tweak ∷ [])

  unfoldable pub start :
      Factory Client Informer Tweak → List Informer × Factory Client Informer Tweak
  start factory =
      let done = start_each factory.informers factory.started_informers in
      (done.0, record factory { started_informers = done.1 })

  unfoldable pub wait_for_cache_sync :
      (Informer → Bool) → Factory Client Informer Tweak → List (String × Bool)
  unfolding wait_each_started
  wait_for_cache_sync synced factory =
      wait_each_started synced factory.informers factory.started_informers

  -- What `InformerFor` does where the type has no informer yet.
  unfoldable pub add_informer :
      String
      → (Client → ℕ → Informer)
      → Factory Client Informer Tweak
      → Informer × Factory Client Informer Tweak
  add_informer type new_func factory =
      let informer =
        new_func factory.client
          (or_else (lookup type factory.custom_resync) factory.default_resync) in
      (informer, record factory { informers = insert type informer factory.informers })

  -- What follows the lookup of the type.
  unfoldable pub reuse :
      String
      → (Client → ℕ → Informer)
      → Factory Client Informer Tweak
      → Option Informer
      → Informer × Factory Client Informer Tweak
  unfolding add_informer
  reuse type new_func factory (some informer) = (informer, factory)
  reuse type new_func factory none = add_informer type new_func factory

  unfoldable pub informer_for :
      String
      → (Client → ℕ → Informer)
      → Factory Client Informer Tweak
      → Informer × Factory Client Informer Tweak
  unfolding reuse
  informer_for type new_func factory = reuse type new_func factory (lookup type factory.informers)
