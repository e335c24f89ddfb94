-- ===== src/Clientset/Constructors.antt =====
-- pkg/clientset/versioned/clientset.go, and jupyter_client.go of its typed/jupyter/v1: the set of clients
-- from a configuration. A `rest.Config` is its fields that the code reads or sets.
pub mod Laws
use jupyter_operator.Common.{
  ℕ, String, Bool, Option, none, some, ◌==◌, is_none, ◌&&◌, if◌then◌else◌,
}
use jupyter_operator.Kube.{Error, Result, ok, err}
use jupyter_operator.Prog.{Outcome, value, panics}
use jupyter_operator.Registration.{GroupVersion, scheme_group_version}

-- `Limiter` is `flowcontrol.RateLimiter`, `Serializer` the negotiated serializer, `Float32` the
-- float32 of Go.
pub record RestConfig (Limiter Serializer Float32 : Type 0) : Type 0 where
  pub group_version : Option GroupVersion
  pub api_path : String
  pub negotiated_serializer : Option Serializer
  pub user_agent : String
  pub rate_limiter : Option Limiter
  pub qps : Float32
  pub burst : ℕ

-- What client-go does with a configuration, and the arithmetic of Go that the code needs.
pub record RestVendor : Type 1 where
  pub Limiter : Type 0
  pub Serializer : Type 0
  pub Float32 : Type 0
  -- `x > 0`
  pub is_above_zero : Float32 → Bool
  pub Rest : Type 0
  pub Discovery : Type 0
  pub new_token_bucket : Float32 → ℕ → Limiter
  -- `serializer.DirectCodecFactory{CodecFactory: scheme.Codecs}`
  pub direct_codecs : Serializer
  pub default_user_agent : String
  pub rest_client_for : RestConfig Limiter Serializer Float32 → Result Rest
  pub new_discovery : RestConfig Limiter Serializer Float32 → Result Discovery
  pub discovery_of : Rest → Discovery

module _ (V : RestVendor) where
  abbrev pub Config : Type 0
  Config = RestConfig V.Limiter V.Serializer V.Float32

  -- `JupyterV1Client`
  pub record JupyterClient : Type 0 where
    pub rest_client : V.Rest

  pub record ClientSet : Type 0 where
    pub discovery : V.Discovery
    pub jupyter : JupyterClient

-- `panic(err)`
abbrev pub or_die : {A : Type 0} → Result A → Outcome A
or_die (ok a) = value a
or_die (err e) = panics e.text

module _ (V : RestVendor) where
  -- `setConfigDefaults`, which returns no error.
  unfoldable pub set_config_defaults : Config V → Config V
  set_config_defaults config = record config {
    group_version = some scheme_group_version;
    api_path = "/apis";
    negotiated_serializer = some V.direct_codecs;
    user_agent = if config.user_agent == "" then V.default_user_agent else config.user_agent;
  }

  abbrev pub client_result : Result V.Rest → Result (JupyterClient V)
  client_result (ok rest) = ok (record { rest_client = rest })
  client_result (err e) = err e

  -- `NewForConfig` of the typed client.
  unfoldable pub new_jupyter_for_config : Config V → Result (JupyterClient V)
  unfolding set_config_defaults
  new_jupyter_for_config c = client_result (V.rest_client_for (set_config_defaults c))

  unfoldable pub new_jupyter_for_config_or_die : Config V → Outcome (JupyterClient V)
  new_jupyter_for_config_or_die c = or_die (new_jupyter_for_config c)

  -- The copy of the configuration has a rate limiter, which the clients share.
  unfoldable pub with_limiter : Config V → Config V
  with_limiter c =
      if is_none c.rate_limiter && V.is_above_zero c.qps
      then record c { rate_limiter = some (V.new_token_bucket c.qps c.burst) }
      else c

  abbrev pub client_set : Result (JupyterClient V) → Result V.Discovery → Result (ClientSet V)
  client_set (err e) d = err e
  client_set (ok jupyter) (err e) = err e
  client_set (ok jupyter) (ok d) = ok (record { discovery = d; jupyter = jupyter })

  -- `NewForConfig`
  unfoldable pub new_for_config : Config V → Result (ClientSet V)
  new_for_config c =
      client_set (new_jupyter_for_config (with_limiter c)) (V.new_discovery (with_limiter c))

  abbrev pub clients : Outcome (JupyterClient V) → Outcome V.Discovery → Outcome (ClientSet V)
  clients (panics reason) d = panics reason
  clients (value jupyter) (panics reason) = panics reason
  clients (value jupyter) (value d) = value (record { discovery = d; jupyter = jupyter })

  -- `NewForConfigOrDie`, which makes no limiter.
  unfoldable pub new_for_config_or_die : Config V → Outcome (ClientSet V)
  new_for_config_or_die c = clients (new_jupyter_for_config_or_die c) (or_die (V.new_discovery c))

  -- `New` of the typed client and of the set.
  unfoldable pub new_jupyter : V.Rest → JupyterClient V
  new_jupyter rest = record { rest_client = rest }

  unfoldable pub new_client_set : V.Rest → ClientSet V
  new_client_set rest = record { jupyter = new_jupyter rest; discovery = V.discovery_of rest }

  -- `Discovery` and `RESTClient`, on a receiver that may be nil.
  unfoldable pub discovery_client : Option (ClientSet V) → Option V.Discovery
  discovery_client none = none
  discovery_client (some cs) = some cs.discovery

  unfoldable pub rest_client_of : Option (JupyterClient V) → Option V.Rest
  rest_client_of none = none
  rest_client_of (some c) = some c.rest_client

  -- `JupyterV1` and `Jupyter`
  unfoldable pub jupyter_v1 : ClientSet V → JupyterClient V
  jupyter_v1 cs = cs.jupyter

  unfoldable pub jupyter_default : ClientSet V → JupyterClient V
  jupyter_default cs = cs.jupyter
