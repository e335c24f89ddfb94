-- ===== src/Types/Encoding.antt =====
-- The notebook as JSON, by the tags of pkg/apis/jupyter/v1/types.go.
--
-- The encodings of `ObjectMeta` and `IngressBackend` are vendored, and parameters. A decoder takes the
-- keys as the tags write them.
pub mod RoundTrip
use jupyter_operator.Common.{ℤ, pos, ℕ, String, Bool, false, Option, none, some, List, [], ◌∷◌}
use jupyter_operator.Kube.{ObjectMeta, empty_meta}
use jupyter_operator.Kube.Objects.{IngressBackend}
use jupyter_operator.Prog.{Outcome, value, panics}
use jupyter_operator.Types.{Notebook, NotebookSpec, NotebookStatus}
use jupyter_operator.Types.Json.{
  Json, boolean, text, object, get, fields_of, optional, non_empty_text, non_zero, non_empty_texts,
  as_value, pointer_to, to_text, to_boolean, to_number, to_texts,
}

pub record Codec (A : Type 0) : Type 0 where
  pub encode : A → Json
  pub decode : Json → Option A

pub record Codecs : Type 0 where
  pub meta : Codec ObjectMeta
  pub backend : Codec IngressBackend

-- The fields of a spec by their tags.
abbrev pub spec_fields : Codecs → NotebookSpec → List (String × Option Json)
spec_fields codecs s =
    ("flavor", optional text s.flavor)
    ∷ ("gpu", some (boolean s.gpu))
    ∷ ("host", optional text s.host)
    ∷ ("ingress", optional codecs.backend.encode s.ingress)
    ∷ ("packages", non_empty_texts s.packages)
    ∷ ("password", optional text s.password)
    ∷ ("serviceAccountName", optional text s.service_account_name)
    ∷ ("tls", optional text s.tls)
    ∷ []

abbrev pub status_fields : NotebookStatus → List (String × Option Json)
status_fields s =
    ("observedGeneration", non_zero s.observed_generation) ∷ ("phase", some (text s.phase)) ∷ []

unfoldable pub encode_spec : Codecs → NotebookSpec → Json
encode_spec codecs s = object (fields_of (spec_fields codecs s))

unfoldable pub encode_status : NotebookStatus → Json
encode_status s = object (fields_of (status_fields s))

-- `omitempty` does not drop a struct.
abbrev pub notebook_fields : Codecs → Notebook → List (String × Option Json)
notebook_fields codecs n =
    ("kind", non_empty_text n.kind)
    ∷ ("apiVersion", non_empty_text n.api_version)
    ∷ ("metadata", some (codecs.meta.encode n.meta))
    ∷ ("spec", some (encode_spec codecs n.spec))
    ∷ ("status", some (encode_status n.status))
    ∷ []

-- `json.Marshal(*n)`
unfoldable pub encode_notebook : Codecs → Notebook → Json
encode_notebook codecs n = object (fields_of (notebook_fields codecs n))

abbrev make_spec :
    Option (Option String)
    → Option Bool
    → Option (Option String)
    → Option (Option IngressBackend)
    → Option (List String)
    → Option (Option String)
    → Option (Option String)
    → Option (Option String)
    → Option NotebookSpec
make_spec (some flavor) (some gpu) (some host) (some ingress) (some packages) (some password)
      (some account) (some tls) =
    some (record {
      flavor = flavor;
      gpu = gpu;
      host = host;
      ingress = ingress;
      packages = packages;
      password = password;
      service_account_name = account;
      tls = tls;
    })
make_spec _ _ _ _ _ _ _ _ = none

-- Decoding into a spec, from what each key has.
abbrev spec_from : Codecs → (String → Option Json) → Option NotebookSpec
spec_from codecs at =
    make_spec (pointer_to to_text (at "flavor")) (as_value false to_boolean (at "gpu"))
      (pointer_to to_text (at "host")) (pointer_to codecs.backend.decode (at "ingress"))
      (as_value [] to_texts (at "packages")) (pointer_to to_text (at "password"))
      (pointer_to to_text (at "serviceAccountName")) (pointer_to to_text (at "tls"))

abbrev make_status : Option ℤ → Option String → Option NotebookStatus
make_status (some generation) (some phase) =
    some (record { observed_generation = generation; phase = phase })
make_status _ _ = none

abbrev status_from : (String → Option Json) → Option NotebookStatus
status_from at =
    make_status (as_value (pos 0) to_number (at "observedGeneration"))
      (as_value "" to_text (at "phase"))

decode_spec : Codecs → Json → Option NotebookSpec
decode_spec codecs (object fields) = spec_from codecs (get fields)
decode_spec codecs _ = none

decode_status : Json → Option NotebookStatus
decode_status (object fields) = status_from (get fields)
decode_status _ = none

abbrev blank_spec : NotebookSpec
blank_spec = record {
  flavor = none;
  gpu = false;
  host = none;
  ingress = none;
  packages = [];
  password = none;
  service_account_name = none;
  tls = none;
}

abbrev make_notebook :
    Option String
    → Option String
    → Option ObjectMeta
    → Option NotebookSpec
    → Option NotebookStatus
    → Option Notebook
make_notebook (some kind) (some api_version) (some meta) (some spec) (some status) =
    some
      (record { api_version = api_version; kind = kind; meta = meta; spec = spec; status = status })
make_notebook _ _ _ _ _ = none

abbrev notebook_from : Codecs → (String → Option Json) → Option Notebook
notebook_from codecs at =
    make_notebook (as_value "" to_text (at "kind")) (as_value "" to_text (at "apiVersion"))
      (as_value empty_meta codecs.meta.decode (at "metadata"))
      (as_value blank_spec (decode_spec codecs) (at "spec"))
      (as_value (record { observed_generation = pos 0; phase = "" }) decode_status (at "status"))

-- `json.Unmarshal` into the zero notebook.
unfoldable pub decode_notebook : Codecs → Json → Option Notebook
unfolding decode_spec decode_status
decode_notebook codecs (object fields) = notebook_from codecs (get fields)
decode_notebook codecs _ = none

-- `(n *Notebook) Copy()`, where an error panics.
abbrev decoded : Option Notebook → Outcome Notebook
decoded none = panics "json.Unmarshal"
decoded (some n) = value n

pub copy : Codecs → Notebook → Outcome Notebook
copy codecs n = decoded (decode_notebook codecs (encode_notebook codecs n))
