-- ===== src/Controller/Wiring/Routes.antt =====
-- The way of a request: ingress, service, pods.
use mathlib.Core.Path.{subst}
use jupyter_operator.Common.{String, none, some, List, [], ◌∷◌, ◌≡◌, ◌≢◌, refl, ap, lookup, All}
use jupyter_operator.Prog.{value}
use jupyter_operator.Kube.{int}
use jupyter_operator.Kube.Objects.{
  IngressBackend, StatefulSet, Ingress, HttpIngressPath, IngressRule, ServicePort,
}
use jupyter_operator.Types.{Notebook}
use jupyter_operator.K8sutil.{add_owner_ref_to_object}
use jupyter_operator.K8sutil.Service.{calculate_service}
use jupyter_operator.K8sutil.Ingress.{backend_from, calculate_ingress}
use jupyter_operator.Controller.Wiring.Belonging.{calculate_ingress-value}

-- The selector asks for something, and every label that it asks for is there.
abbrev pub Selects : List (String × String) → List (String × String) → Type 0
Selects selector labels =
    (selector ≢ []) × ((k v : String) → lookup k selector ≡ some v → lookup k labels ≡ some v)

-- A port of the service has the backend's number.
abbrev pub Serves : Notebook → HttpIngressPath → Type 0
Serves n p =
    (p.backend.service_name ≡ (calculate_service n).meta.name)
    × ((port : ServicePort) × (rest : List ServicePort) × ((calculate_service n).spec.ports
          ≡ port ∷ rest)
        × (p.backend.service_port ≡ int port.port))

-- With no backend in the spec, if the ingress can be calculated, each of its paths leads to the
-- notebook's service, at the first of its ports.
pub ingress_reaches_service :
    (n : Notebook) (ing : Ingress)
    → n.spec.ingress ≡ none
    → calculate_ingress n ≡ value ing
    → All (λ (r : IngressRule). All (Serves n) r.paths) ing.spec.rules
unfolding calculate_ingress calculate_service add_owner_ref_to_object backend_from
ingress_reaches_service n ing unset e =
    let (h, same, host) = calculate_ingress-value n _ ing e in
    let backend = ap (backend_from n) unset in
    subst (λ (i : Ingress). All (λ (r : IngressRule). All (Serves n) r.paths) i.spec.rules) same
      (
        (
          (
            ap (λ (b : IngressBackend). b.service_name) backend,
            (_, _, refl, ap (λ (b : IngressBackend). b.service_port) backend),
          ),
          tt,
        ),
        tt,
      )
