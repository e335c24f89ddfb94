-- ===== src/Types/Validate/Laws.antt =====
-- `Validate` accepts exactly the specs that its error messages describe.
use jupyter_operator.Common.{String, Option, none, some, [], ◌≡◌, ◌↔◌, All}
use jupyter_operator.Kube.Objects.{IngressBackend}
use jupyter_operator.Types.{NotebookSpec}
use jupyter_operator.Types.Packages.{codes}
use jupyter_operator.Types.Validate.{Validation}
use jupyter_operator.Types.Validate.Grammar.{IsPackage}

module _ (v : Validation) where
  abbrev pub HostFits : Option String → Type 0
  HostFits none = Unit
  HostFits (some host) = v.is_dns1123_subdomain host ≡ []

  abbrev pub IngressFits : Option IngressBackend → Type 0
  IngressFits none = Unit
  IngressFits (some b) = (b.service_name ≡ "") ↔ (v.port_text b.service_port ≡ "")

  -- What the three error messages of `Validate` ask of a spec.
  pub record IsValid (s : NotebookSpec) : Type 0 where
    pub host_fits : HostFits s.host
    pub ingress_fits : IngressFits s.ingress
    pub packages_fit : All (λ p. IsPackage (codes p)) s.packages
