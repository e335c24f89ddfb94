-- ===== src/Types/Validate.antt =====
-- `(n *Notebook) Validate` of pkg/apis/jupyter/v1/types.go.
pub mod Grammar
pub mod Laws
use jupyter_operator.Common.{
  String, Bool, true, false, not, ◌==◌, Option, none, some, List, [], ◌∷◌, if◌then◌else◌,
}
use jupyter_operator.Kube.{Error, new_error, IntOrString}
use jupyter_operator.Kube.Objects.{IngressBackend}
use jupyter_operator.Types.{Notebook}
use jupyter_operator.Types.Packages.{valid_package}

-- `a != b` of two Booleans
abbrev pub differ : Bool → Bool → Bool
differ true b = not b
differ false b = b

abbrev pub host_error : Error
host_error = new_error "host is required and must be a valid DNS-1123 subdomain"

abbrev pub ingress_error : Error
ingress_error = new_error "ingress service name and port must be both defined or both undefined"

abbrev pub package_error : Error
package_error =
    new_error
      "packages must be a valid list of package names and versions matching \"package\" or \"package=version\""

-- `validation.IsDNS1123Subdomain` and `(*IntOrString).String` of k8s.io/apimachinery.
pub record Validation : Type 0 where
  pub is_dns1123_subdomain : String → List String
  pub port_text : IntOrString → String

-- The loop over the packages.
unfoldable pub invalid_packages : List String → Bool
invalid_packages [] = false
invalid_packages (p ∷ ps) = if valid_package p then invalid_packages ps else true

module _ (v : Validation) where
  -- `errs != nil`
  unfoldable pub invalid_host : Option String → Bool
  invalid_host none = false
  invalid_host (some host) = elim (v.is_dns1123_subdomain host) [ [] ↦ false | e ∷ es ↦ true ]

  unfoldable pub invalid_ingress : Option IngressBackend → Bool
  invalid_ingress none = false
  invalid_ingress (some b) = differ (b.service_name == "") (v.port_text b.service_port == "")

  unfoldable pub validate : Notebook → Option Error
  validate n =
      if invalid_host n.spec.host
      then some host_error
      else if invalid_ingress n.spec.ingress
      then some ingress_error
      else if invalid_packages n.spec.packages
      then some package_error
      else none
