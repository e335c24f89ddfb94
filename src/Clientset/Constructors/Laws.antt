-- ===== src/Clientset/Constructors/Laws.antt =====
-- The two ways to a set of clients of pkg/clientset/versioned/clientset.go.
use jupyter_operator.Common.{◌≡◌, refl, is_some, ◌||◌, arith}
use jupyter_operator.Kube.{Result, ok, err}
use jupyter_operator.Clientset.Constructors.{
  RestVendor, Config, JupyterClient, client_set, clients, or_die, set_config_defaults, with_limiter,
  new_jupyter_for_config_or_die, new_for_config, new_for_config_or_die,
}

module _ (V : RestVendor) where
  client_set-clients :
      (jupyter : Result (JupyterClient V)) (d : Result V.Discovery)
      → or_die (client_set V jupyter d) ≡ clients V (or_die jupyter) (or_die d)
  client_set-clients (err e) d = refl
  client_set-clients (ok jupyter) (err e) = refl
  client_set-clients (ok jupyter) (ok d) = refl

  -- `NewForConfig` gives the clients that `NewForConfigOrDie` gives for the configuration with a rate
  -- limiter of its own, and an error where that panics. Both of its clients are made with the same
  -- limiter, which is there if the configuration has one or its QPS is above 0.
  pub new_for_config-or_die :
      (c : Config V)
      → (or_die (new_for_config V c) ≡ new_for_config_or_die V (with_limiter V c))
        × ((set_config_defaults V (with_limiter V c)).rate_limiter
            ≡ (with_limiter V c).rate_limiter)
        × ((is_some c.rate_limiter || V.is_above_zero c.qps)
            ≡ is_some (with_limiter V c).rate_limiter)
  unfolding new_for_config new_for_config_or_die new_jupyter_for_config_or_die set_config_defaults
      with_limiter
  new_for_config-or_die c = (client_set-clients _ _, refl, ground arith)
