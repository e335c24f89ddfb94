-- ===== src/Controller/Wiring/Hosts.antt =====
-- The host names of the ingress and of the certificate.
use mathlib.Core.Path.{subst}
use mathlib.Core.Option.{some-injective}
use text.Mathlib.TextLemmas.{length-append}
use Prim.Native.String
use jupyter_operator.Common.{
  String, ◌==◌, concat, Option, none, some, ◌≡◌, ◌≢◌, sym, ap, ◌∙◌, All, arith, Bool-cases, inl,
  inr,
}
use jupyter_operator.Prog.{value}
use jupyter_operator.Kube.Objects.{Ingress, IngressRule}
use jupyter_operator.Types.{Notebook}
use jupyter_operator.K8sutil.Secret.{host_names, alt_names}
use jupyter_operator.K8sutil.Ingress.{ingress_host, calculate_ingress}
use jupyter_operator.Controller.Wiring.Belonging.{calculate_ingress-value}

concat_longer : (s host : String) → concat s (concat "." host) ≢ host
concat_longer s host e =
    absurd
      (omega (arith, ap String.count e, length-append s (concat "." host), length-append "." host))

host_names_miss :
    (n : Notebook) (host : String) (set : Option String)
    → set ≡ some host
    → All (λ name. name ≢ ingress_host n host) (host_names set)
unfolding host_names
host_names_miss n host none e = cc
host_names_miss n host (some h) e = elim (Bool-cases (h == "")) [
  | inl empty ↦ rw empty tt
  | inr set ↦ rw set ((λ e'. concat_longer n.meta.name host (sym e' ∙ some-injective h host e)), tt)
]

-- If the ingress of a notebook can be calculated, none of the names of the notebook's certificate
-- is a host name that the ingress serves: the ingress puts the notebook's name in front of the
-- host of the spec, and the certificate does not.
pub certificate_misses_ingress_host :
    (n : Notebook) (ing : Ingress)
    → calculate_ingress n ≡ value ing
    → All (λ (r : IngressRule). All (λ name. name ≢ r.host) (alt_names n)) ing.spec.rules
unfolding calculate_ingress
certificate_misses_ingress_host n ing e =
    let (h, same, set) = calculate_ingress-value n _ ing e in
    subst
      (λ (i : Ingress).
        All (λ (r : IngressRule). All (λ name. name ≢ r.host) (alt_names n)) i.spec.rules)
      same (host_names_miss n h n.spec.host set, tt)
