-- ===== src/Tests/Controller.antt =====
-- Examples for pkg/controller.
use jupyter_operator.Common.{
  concat, ◌==◌, if◌then◌else◌, ℕ, String, true, false, insert, Option, none, some, List, [], ◌∷◌,
  ◌≡◌, ◌≢◌, refl, ◌↔◌, inl, All,
}
use jupyter_operator.Prog.{value}
use jupyter_operator.Prog.Parallel.{Schedule}
use jupyter_operator.Prog.Holds.{Anything, Holds}
use jupyter_operator.Kube.{ok, is_not_found, ObjectMeta, empty_meta}
use jupyter_operator.Kube.Objects.{Secret, StatefulSet, Ingress, IngressRule, Container}
use jupyter_operator.Types.{Notebook, as_owner}
use jupyter_operator.Types.Defaults.{IsComplete}
use jupyter_operator.Tls.{new_signed_cert}
use jupyter_operator.K8sutil.Service.{calculate_service}
use jupyter_operator.K8sutil.Secret.{
  tls_cert_key, tls_private_key_key, should_have_certs, signed_contents, certificate_contents,
  secret_object, with_password, alt_names, calculate_secret,
}
use jupyter_operator.K8sutil.StatefulSet.Calculate.{
  pod_template, stateful_set_object, stateful_set_from, calculate_stateful_set,
}
use jupyter_operator.K8sutil.Ingress.{ingress_object, ingress_from, calculate_ingress}
use jupyter_operator.Controller.Reconcilers.{secret_should_exist}
use jupyter_operator.Controller.Wiring.Belonging.{BelongsTo, calculated-BelongsTo}
use jupyter_operator.Controller.Wiring.Routes.{Serves, ingress_reaches_service}
use jupyter_operator.Controller.Wiring.Secrets.{
  SecretProvides, secret_provides, no_secret_no_reader,
}
use jupyter_operator.Controller.Wiring.Hosts.{certificate_misses_ingress_host}
use jupyter_operator.Controller.{Controller}
use jupyter_operator.Controller.Errors.{join_errors}
use jupyter_operator.Controller.Errors.Laws.{IsHarmless, join_errors-none_iff}
use jupyter_operator.Controller.Resources.{resources_error, reconcile_notebook_resources}
use jupyter_operator.Controller.Sync.{sync}
use jupyter_operator.Controller.Crd.{established}
use jupyter_operator.Controller.Crd.Laws.{SomeEstablished, established_iff}
use jupyter_operator.Controller.Frame.Bounds.{ServedIfLive}
use jupyter_operator.Controller.Frame.Resources.{
  resources_error-none_iff, reconcile_notebook_resources-Holds,
}
use jupyter_operator.Controller.Frame.Sync.{sync-Holds}
use jupyter_operator.Tests.World.{
  World, demo, full_demo, bare_demo, absent, text_crypto, demo_controller, Allowed, demo-Bounds,
  demo-NotebookBounds,
}

-- The second side of each pair moves first.
abbrev in_turn : ℕ → Schedule
in_turn i step = false

-- The objects of the notebook.
abbrev demo_contents : List (String × Option String)
demo_contents = (tls_cert_key, some "cert") ∷ (tls_private_key_key, some "key") ∷ []

abbrev demo_secret : Secret
demo_secret = secret_object full_demo (with_password full_demo demo_contents)

abbrev demo_set : StatefulSet
demo_set = stateful_set_object full_demo (pod_template full_demo "minimal" "")

abbrev demo_ingress : Ingress
demo_ingress = ingress_object full_demo "example.com"

abbrev bare_set : StatefulSet
bare_set = stateful_set_object bare_demo (pod_template bare_demo "minimal" "")

demo_set-eq : calculate_stateful_set full_demo ≡ value demo_set
unfolding calculate_stateful_set stateful_set_from
demo_set-eq = refl

bare_set-eq : calculate_stateful_set bare_demo ≡ value bare_set
unfolding calculate_stateful_set stateful_set_from
bare_set-eq = refl

demo_ingress-eq : calculate_ingress full_demo ≡ value demo_ingress
unfolding calculate_ingress ingress_from
demo_ingress-eq = refl

demo_secret-eq : calculate_secret text_crypto 7 full_demo "ca" "ca key" ≡ value demo_secret
unfolding calculate_secret certificate_contents signed_contents new_signed_cert should_have_certs
    insert
demo_secret-eq = refl

bare_has_no_secret : secret_should_exist bare_demo ≡ false
unfolding secret_should_exist should_have_certs
bare_has_no_secret = refl

sync-Holds_example : Holds Allowed ⊥ Anything (sync demo_controller in_turn "default/demo")
sync-Holds_example =
    sync-Holds Allowed ⊥ ⊥ demo_controller "default" "demo" demo-Bounds demo-NotebookBounds in_turn
      "default/demo" refl

full_demo-IsComplete : IsComplete full_demo.spec
full_demo-IsComplete = record {
  flavor_set = ("minimal", refl);
  host_set = ("example.com", refl);
  password_set = ("sha1:0e112c3ddfce", refl);
  account_set = ("", refl);
  tls_set = ("self-signed", refl);
}

reconcile_notebook_resources-Holds_example :
    Holds Allowed ⊥
      (λ e. e ≡ none → ServedIfLive ⊥ demo_controller full_demo)
      (reconcile_notebook_resources demo_controller in_turn full_demo)
reconcile_notebook_resources-Holds_example =
    reconcile_notebook_resources-Holds Allowed ⊥ ⊥ demo_controller full_demo demo-Bounds in_turn
      (inl full_demo-IsComplete)

calculated-BelongsTo_example :
    BelongsTo full_demo (calculate_service full_demo).meta
    × BelongsTo full_demo demo_secret.meta
    × BelongsTo full_demo demo_set.meta
    × BelongsTo full_demo demo_ingress.meta
calculated-BelongsTo_example =
    calculated-BelongsTo text_crypto 7 full_demo "ca" "ca key" demo_secret demo_set demo_ingress
      demo_secret-eq demo_set-eq demo_ingress-eq

ingress_reaches_service_example :
    All (λ (r : IngressRule). All (Serves full_demo) r.paths) demo_ingress.spec.rules
ingress_reaches_service_example =
    ingress_reaches_service full_demo demo_ingress refl demo_ingress-eq

secret_provides_example : SecretProvides demo_secret demo_set
secret_provides_example =
    secret_provides text_crypto 7 full_demo "ca" "ca key" demo_secret demo_set demo_secret-eq
      demo_set-eq

no_secret_no_reader_example :
    All (λ (c : Container). c.env ≡ []) bare_set.spec.template.spec.containers
    × (bare_set.spec.template.spec.volumes ≡ [])
no_secret_no_reader_example =
    no_secret_no_reader bare_demo bare_set refl bare_has_no_secret bare_set-eq

certificate_misses_ingress_host_example :
    All
      (λ (r : IngressRule). All (λ name. name ≢ r.host) (alt_names full_demo))
      demo_ingress.spec.rules
certificate_misses_ingress_host_example =
    certificate_misses_ingress_host full_demo demo_ingress demo_ingress-eq

join_errors-none_iff_example :
    (join_errors (some absent ∷ none ∷ []) (is_not_found ∷ []) ≡ none)
    ↔ All (IsHarmless (is_not_found ∷ [])) (some absent ∷ none ∷ [])
join_errors-none_iff_example = join_errors-none_iff (is_not_found ∷ []) (some absent ∷ none ∷ [])

no_error_left :
    (resources_error demo (none ∷ some absent ∷ []) ≡ none)
    ↔ All (λ e. e ≡ none) (none ∷ some absent ∷ [])
no_error_left = resources_error-none_iff demo (none ∷ some absent ∷ [])

-- An object of the notebook, at two resource versions.
abbrev at_version : String → String → ObjectMeta
at_version name version = record empty_meta {
  name = name;
  namespace = "default";
  resource_version = version;
}

-- The notebook that the object belonged to before.
abbrev earlier : Notebook
earlier = record demo { meta = record demo.meta { name = "earlier"; uid = "u0" } }

-- An informer that shows both, and a vendored helper that finds the owner.
abbrev moving : Controller World String String
moving = record demo_controller {
  notebook_lister = record { get = λ ns name w. if name == "earlier" then ok earlier else ok demo };
  vendor = record demo_controller.vendor {
    notebook_key = λ n. ok (concat "default/" n.meta.name);
    controller_of =
        λ o. if o.name == "moved" then some (as_owner earlier) else some (as_owner demo);
  };
}

established_iff_example :
    (established (record { type = "Established"; status = "True" } ∷ []) ≡ true)
    ↔ SomeEstablished (record { type = "Established"; status = "True" } ∷ [])
established_iff_example = established_iff (record { type = "Established"; status = "True" } ∷ [])
