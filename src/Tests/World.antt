-- ===== src/Tests/World.antt =====
-- A small world for the examples: it records the names of the objects that are written, newest first.
use mathlib.Core.Bool.{false≢true}
use jupyter_operator.Common.{
  pos, String, true, false, none, some, List, [], ◌∷◌, ◌≡◌, refl, sym, ap, ◌⊎◌, inl, inr,
}
use jupyter_operator.Prog.{ret, ◌>>=◌}
use jupyter_operator.Prog.Holds.{Holds-bind}
use jupyter_operator.Kube.{Error, not_found, ok, err, ObjectMeta, empty_meta, IntOrString, int, str}
use jupyter_operator.Kube.Resource.{Client, Lister}
use jupyter_operator.Kube.Objects.{PodTemplateSpec, Service, Secret, StatefulSet, Ingress}
use jupyter_operator.Types.{Notebook, NotebookSpec, as_owner}
use jupyter_operator.Types.Validate.{Validation}
use jupyter_operator.Tls.{Crypto, new_signed_cert}
use jupyter_operator.K8sutil.{resource_name}
use jupyter_operator.K8sutil.Retry.{Retry}
use jupyter_operator.K8sutil.Upsert.Laws.{Permits}
use jupyter_operator.K8sutil.Frame.{IsFaithful}
use jupyter_operator.Controller.{Controller}
use jupyter_operator.Controller.Frame.Bounds.{Bounds}
use jupyter_operator.Controller.Frame.Sync.{NotebookBounds}

abbrev pub World : Type 0
World = List String

-- The notebook of examples/notebook.yaml, as it is before its defaults are set.
abbrev pub demo_spec : NotebookSpec
demo_spec = record {
  flavor = none;
  gpu = false;
  host = some "example.com";
  ingress = none;
  packages = "numpy" ∷ [];
  password = some "sha1:0e112c3ddfce";
  service_account_name = none;
  tls = none;
}

abbrev pub demo_meta : String → String → ObjectMeta
demo_meta ns name = record empty_meta { name = name; namespace = ns; uid = "u1" }

abbrev pub named_notebook : String → String → Notebook
named_notebook ns name = record {
  api_version = "jupyter.squat.ai/v1";
  kind = "Notebook";
  meta = demo_meta ns name;
  spec = demo_spec;
  status = record { observed_generation = pos 0; phase = "" };
}

abbrev pub demo : Notebook
demo = named_notebook "default" "demo"

-- The same notebook with its defaults set.
abbrev pub full_demo : Notebook
full_demo = record demo {
  spec = record {
    flavor = some "minimal";
    gpu = false;
    host = some "example.com";
    ingress = none;
    packages = "numpy" ∷ [];
    password = some "sha1:0e112c3ddfce";
    service_account_name = some "";
    tls = some "self-signed";
  };
}

-- And with no host, no password and no TLS.
abbrev pub bare_demo : Notebook
bare_demo = record demo {
  spec = record full_demo.spec { host = some ""; password = some ""; tls = some "none" };
}

abbrev pub absent : Error
absent = record { reason = not_found; text = "not found" }

abbrev pub writing_client : {Obj : Type 0} → (Obj → String) → Client World Obj
writing_client name_of = record {
  create = λ o w. (none, name_of o ∷ w);
  update = λ o w. (none, name_of o ∷ w);
  delete = λ name p w. (none, name ∷ w);
}

abbrev pub empty_lister : {Obj : Type 0} → Lister World Obj
empty_lister = record { get = λ ns name w. err absent }

abbrev pub empty_template : PodTemplateSpec
empty_template = record {
  labels = [];
  spec = record {
    automount_service_account_token = none;
    containers = [];
    deprecated_service_account = "";
    dns_policy = "";
    restart_policy = "";
    scheduler_name = "";
    security_context = none;
    service_account_name = "";
    termination_grace_period_seconds = none;
    tolerations = [];
    volumes = [];
  };
}

abbrev pub ready_set : String → String → StatefulSet
ready_set ns name = record {
  meta = demo_meta ns name;
  spec = record {
    replicas = some (pos 1);
    match_labels = [];
    service_name = "";
    template = empty_template;
  };
  ready_replicas = pos 1;
}

-- One attempt, and its result as the only message.
abbrev pub retry_once : Retry World
retry_once interval limit attempt = attempt >>= λ e. ret (record { done = true; error = e } ∷ [])

abbrev pub text_crypto : Crypto String String
text_crypto = record {
  new_private_key = λ seed. ok "key";
  new_self_signed_ca_certificate = λ seed config key. ok "ca";
  new_signed_certificate = λ seed config key ca_cert ca_key. ok "cert";
  new_uuid = λ seed. "uuid";
  encode_certificate = λ cert. cert;
  encode_private_key = λ key. key;
  parse_certificate = λ pem. elim pem [ none ↦ err absent | some text ↦ ok text ];
  signed_by = λ cert ca. true;
}

abbrev pub port_text : IntOrString → String
port_text (int n) = "8888"
port_text (str s) = s

-- Only the empty text is no subdomain.
abbrev pub demo_validation : Validation
demo_validation = record {
  is_dns1123_subdomain = λ host. elim host [ String.[] ↦ "is empty" ∷ [] | String.◌∷◌ a rest ↦ [] ];
  port_text = port_text;
}

abbrev pub demo_controller : Controller World String String
demo_controller = record {
  ca_cert = "ca";
  ca_key = "ca key";
  notebooks = λ ns. record {
    update = λ n w. (none, n.meta.name ∷ w);
    update_status = λ n w. (none, n.meta.name ∷ w);
  };
  services = λ ns. writing_client (λ (o : Service). o.meta.name);
  secrets = λ ns. writing_client (λ (o : Secret). o.meta.name);
  stateful_sets = λ ns. writing_client (λ (o : StatefulSet). o.meta.name);
  ingresses = λ ns. writing_client (λ (o : Ingress). o.meta.name);
  notebook_lister = record { get = λ ns name w. ok (named_notebook ns name) };
  service_lister = empty_lister;
  secret_lister = empty_lister;
  stateful_set_lister = record { get = λ ns name w. ok (ready_set ns name) };
  ingress_lister = empty_lister;
  queue = record {
    get = λ w. (some "default/demo", w);
    add = λ key w. key ∷ w;
    add_rate_limited = λ key w. "later" ∷ key ∷ w;
    forget = λ key w. w;
    done = λ key w. w;
    shut_down = λ w. w;
  };
  entropy = λ w. (7, w);
  now = λ w. 5;
  retry = retry_once;
  crypto = text_crypto;
  vendor = record {
    validation = demo_validation;
    spec_diff = λ a b. [];
    template_diff = λ a b. [];
    split_key = λ key. ok ("default", "demo");
    notebook_key = λ n. ok "default/demo";
    controller_of = λ o. some (as_owner demo);
  };
}

-- The only names that are written: those of the notebook `demo` and of its objects.
abbrev pub IsOwn : String → Type 0
IsOwn name = (name ≡ "demo") ⊎ (name ≡ resource_name "demo")

abbrev pub Allowed : World → World → Type 0
Allowed w w' = (w' ≡ w) ⊎ ((name : String) × (w' ≡ name ∷ w) × IsOwn name)

writing_client-Permits :
    {Obj : Type 0} (name_of : Obj → String)
    → Permits Allowed (writing_client name_of) name_of (resource_name "demo")
writing_client-Permits name_of = record {
  create_ok = λ o e w. inr (name_of o, refl, inr e);
  update_ok = λ o e w. inr (name_of o, refl, inr e);
  delete_ok = λ p w. inr (resource_name "demo", refl, inr refl);
}

pub retry_once-IsFaithful : (G : World → World → Type 0) → IsFaithful G ⊥ ⊥ retry_once
retry_once-IsFaithful G P interval limit attempt h =
    Holds-bind G ⊥ (λ e. e ≡ none → P) _ attempt _ h
      (λ e k. ((λ last. k, tt), λ none_last. absurd (false≢true (sym none_last.0))))

pub ok_inj {ℓ} : {A : Type ℓ} {a b : A} → ok a ≡ ok b → a ≡ b
ok_inj e = cc

pub demo-Bounds : Bounds Allowed ⊥ ⊥ demo_controller "default" "demo"
unfolding new_signed_cert
demo-Bounds = record {
  reads = λ w. inl refl;
  draws = λ w. inl refl;
  services = writing_client-Permits _;
  secrets = writing_client-Permits _;
  stateful_sets = writing_client-Permits _;
  ingresses = writing_client-Permits _;
  faithful = retry_once-IsFaithful Allowed;
  shows = record {
    shown_name = λ ns name w s e. ap (λ (s : StatefulSet). s.meta.name) (sym (ok_inj e));
    shown_replicas =
        λ ns name w s e. (pos 1, ap (λ (s : StatefulSet). s.spec.replicas) (sym (ok_inj e)));
  };
  signs = λ seed names common. (("cert", "key"), refl);
}

pub demo-NotebookBounds : NotebookBounds Allowed ⊥ ⊥ demo_controller "default" "demo"
demo-NotebookBounds = record {
  update_ok = λ n named complete w. inr (n.meta.name, refl, inl named.same_name);
  status_ok = λ n named served w. inr (n.meta.name, refl, inl named.same_name);
  shown = λ w n e. record {
    same_namespace = ap (λ (n : Notebook). n.meta.namespace) (sym (ok_inj e));
    same_name = ap (λ (n : Notebook). n.meta.name) (sym (ok_inj e));
  };
}
