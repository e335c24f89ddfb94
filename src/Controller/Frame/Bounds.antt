-- ===== src/Controller/Frame/Bounds.antt =====
-- What a theorem about every execution supposes of the rest of the world, and what it says of a
-- notebook.
use jupyter_operator.Common.{pos, ℕ, String, true, false, is_some, some, List, ◌≡◌, ◌⊎◌}
use jupyter_operator.Kube.{ok}
use jupyter_operator.Kube.Objects.{StatefulSet}
use jupyter_operator.Types.{Notebook}
use jupyter_operator.Types.Defaults.{IsComplete}
use jupyter_operator.Tls.{new_signed_cert}
use jupyter_operator.K8sutil.{resource_name}
use jupyter_operator.K8sutil.Upsert.Laws.{Permits}
use jupyter_operator.K8sutil.Frame.{IsFaithful, ShowsDefaulted}
use jupyter_operator.Controller.{Controller}

module _ {W Certificate PrivateKey : Type 0} (G : W → W → Type 0) (C L : Type 0)
    (c : Controller W Certificate PrivateKey) where
  -- The guarantee `G` allows what is done about the notebook `name` of the namespace `ns`, and the
  -- rest of the world behaves as supposed: `retry.Retry` may panic only where `C` and end with no
  -- last message only where `L`, and certificates can be generated.
  pub record Bounds (ns name : String) : Type 1 where
    pub reads : (w : W) → G w w
    pub draws : (w : W) → G w (c.entropy w).1
    pub services : Permits G (c.services ns) (λ o. o.meta.name) (resource_name name)
    pub secrets : Permits G (c.secrets ns) (λ o. o.meta.name) (resource_name name)
    pub stateful_sets : Permits G (c.stateful_sets ns) (λ o. o.meta.name) (resource_name name)
    pub ingresses : Permits G (c.ingresses ns) (λ o. o.meta.name) (resource_name name)
    pub faithful : IsFaithful G C L c.retry
    pub shows : ShowsDefaulted c.stateful_set_lister
    pub signs :
        (seed : ℕ) (names : List String) (common : String)
        → (pair : Certificate × PrivateKey) × (new_signed_cert c.crypto seed c.ca_cert c.ca_key
              names common
            ≡ ok pair)

-- The notebook's StatefulSet has been shown with one ready replica, or with as many as it was shown
-- to ask for.
abbrev pub WasServed :
    {W Certificate PrivateKey : Type 0} → Controller W Certificate PrivateKey → Notebook → Type 0
WasServed {W} c n =
    (w : W) × (s : StatefulSet) × (c.stateful_set_lister.get n.meta.namespace
        (resource_name n.meta.name) w
      ≡ ok s)
    × ((s.ready_replicas ≡ pos 1)
        ⊎ ((w' : W) × (s' : StatefulSet) × (c.stateful_set_lister.get n.meta.namespace
                (resource_name n.meta.name) w'
              ≡ ok s')
            × (s'.spec.replicas ≡ some s.ready_replicas)))

-- A notebook that can be built, or one that is being deleted.
abbrev pub IsBuildable : Notebook → Type 0
IsBuildable n = IsComplete n.spec ⊎ (is_some n.meta.deletion_timestamp ≡ true)

-- What is known when a live notebook has been reconciled without an error: it was served, or the wait
-- for its StatefulSet ended with no last message of `retry.Retry` (`L`).
abbrev pub ServedIfLive :
    {W Certificate PrivateKey : Type 0}
    → Type 0
    → Controller W Certificate PrivateKey
    → Notebook
    → Type 0
ServedIfLive L c n = is_some n.meta.deletion_timestamp ≡ false → WasServed c n ⊎ L
