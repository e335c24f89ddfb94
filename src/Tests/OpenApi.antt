-- ===== src/Tests/OpenApi.antt =====
-- Examples for the JSON of pkg/apis/jupyter/v1/types.go and the definitions of openapi_generated.go.
use jupyter_operator.Common.{
  pos, ◌≤◌, String, true, false, Option, none, some, List, [], ◌∷◌, ◌≡◌, ◌≢◌, refl, length, lookup,
}
use jupyter_operator.Kube.{ObjectMeta, empty_meta, int}
use jupyter_operator.Kube.Objects.{IngressBackend}
use jupyter_operator.Prog.{value}
use jupyter_operator.Types.{Notebook}
use jupyter_operator.Types.Json.{Json, Fields, end, field, get}
use jupyter_operator.Types.Encoding.{Codec, Codecs, encode_notebook, decode_notebook, copy}
use jupyter_operator.Types.Encoding.RoundTrip.{
  InvertsFor, copy_lem, decode_notebook-encode_notebook,
}
use jupyter_operator.Controller.Crd.{notebook_crd}
use jupyter_operator.OpenApi.Schema.{TimeSchemas, ref, jupyter, core}
use jupyter_operator.OpenApi.Core.FromPodSpec.{pod_template_spec_schema}
use jupyter_operator.OpenApi.Table.{get_open_api_definitions}
use jupyter_operator.OpenApi.Closed.{keys, IsClosed, lookup-IsClosed}
use jupyter_operator.OpenApi.Ends.{IsChain, chain_bounded}
use jupyter_operator.OpenApi.Conforms.{conforms}
use jupyter_operator.OpenApi.Conforms.Notebooks.{encode_notebook-conforms}
use jupyter_operator.Tests.World.{demo}

-- RFC 3339.
abbrev rfc3339 : TimeSchemas
rfc3339 = record {
  time_type = "string" ∷ [];
  time_format = "date-time";
  micro_time_type = "string" ∷ [];
  micro_time_format = "date-time";
}

abbrev text_at : Option Json → String
text_at (some (Json.text s)) = s
text_at _ = ""

-- Metadata by its name, namespace and UID.
abbrev short_meta : Codec ObjectMeta
short_meta = record {
  encode = λ m. Json.object (
      field "name" (Json.text m.name)
        (field "namespace" (Json.text m.namespace) (field "uid" (Json.text m.uid) end)));
  decode = λ j. elim j [
    | Json.object fields ↦ some (record empty_meta {
      name = text_at (get fields "name");
      namespace = text_at (get fields "namespace");
      uid = text_at (get fields "uid");
    })
    | _ ↦ none
  ];
}

-- A backend whose port is a number.
abbrev short_backend : Codec IngressBackend
short_backend = record {
  encode = λ b. Json.object (
      field "serviceName" (Json.text b.service_name)
        (field "servicePort" (Json.number (pos 80)) end));
  decode = λ j. elim j [
    | Json.object fields ↦
        some (record { service_name = text_at (get fields "serviceName"); service_port = int 80 })
    | _ ↦ none
  ];
}

abbrev short_codecs : Codecs
short_codecs = record { meta = short_meta; backend = short_backend }

-- A notebook with a backend.
abbrev routed_demo : Notebook
routed_demo = record demo {
  spec = record demo.spec {
    ingress = some (record { service_name = "proxy"; service_port = int 80 });
  };
}

object_not_null : (fields : Fields) → Json.object fields ≢ Json.null
object_not_null fields e = cc

routed_demo-InvertsFor : InvertsFor short_codecs routed_demo
unfolding get
routed_demo-InvertsFor = record {
  meta = record { decode-encode = refl; not_null = object_not_null _ };
  backend = record { decode-encode = refl; not_null = object_not_null _ };
}

decode_notebook-encode_notebook_example :
    decode_notebook short_codecs (encode_notebook short_codecs routed_demo) ≡ some routed_demo
decode_notebook-encode_notebook_example =
    decode_notebook-encode_notebook short_codecs routed_demo routed_demo-InvertsFor

encode_notebook-conforms_example :
    conforms
      (get_open_api_definitions rfc3339)
      12
      (ref notebook_crd.spec_definition_name)
      (encode_notebook short_codecs routed_demo)
    ≡ true
encode_notebook-conforms_example = encode_notebook-conforms rfc3339 short_codecs routed_demo

found_pod :
    lookup (core "PodTemplateSpec") (get_open_api_definitions rfc3339)
    ≡ some pod_template_spec_schema
unfolding lookup get_open_api_definitions
found_pod = refl

lookup-IsClosed_example :
    IsClosed (keys (get_open_api_definitions rfc3339)) pod_template_spec_schema
lookup-IsClosed_example =
    lookup-IsClosed rfc3339 (core "PodTemplateSpec") pod_template_spec_schema found_pod

abbrev spec_chain : List String
spec_chain =
    jupyter "Notebook"
    ∷ jupyter "NotebookSpec"
    ∷ "k8s.io/api/extensions/v1beta1.IngressBackend"
    ∷ []

spec_chain-IsChain : IsChain (get_open_api_definitions rfc3339) spec_chain
unfolding lookup get_open_api_definitions
spec_chain-IsChain = (refl, (refl, tt))

chain_bounded_example : length spec_chain ≤ 12
chain_bounded_example = chain_bounded rfc3339 spec_chain spec_chain-IsChain

copied_demo : copy short_codecs routed_demo ≡ value routed_demo
copied_demo = copy_lem short_codecs routed_demo routed_demo-InvertsFor

-- An ingress that is a text conforms to the definition, since the definition of `IngressBackend` is not
-- in the table, and no notebook can be decoded from it.
abbrev odd_notebook : Json
odd_notebook = Json.object (
    field "spec"
      (Json.object (field "gpu" (Json.boolean true) (field "ingress" (Json.text "proxy:80") end)))
      end)

odd_ingress_conforms :
    conforms (get_open_api_definitions rfc3339) 12 (ref (jupyter "Notebook")) odd_notebook ≡ true
unfolding conforms get_open_api_definitions
odd_ingress_conforms = refl

odd_ingress_refused : decode_notebook short_codecs odd_notebook ≡ none
unfolding decode_notebook get
odd_ingress_refused = refl

-- A spec with no `gpu` does not conform.
spec_without_gpu :
    conforms
      (get_open_api_definitions rfc3339)
      12
      (ref (jupyter "Notebook"))
      (Json.object (field "spec" (Json.object end) end))
    ≡ false
unfolding conforms get_open_api_definitions
spec_without_gpu = refl
