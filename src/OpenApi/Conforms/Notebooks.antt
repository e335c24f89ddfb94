-- ===== src/OpenApi/Conforms/Notebooks.antt =====
-- The JSON of a notebook, by the tags of pkg/apis/jupyter/v1/types.go, conforms to its definition in
-- pkg/apis/jupyter/v1/openapi_generated.go.
use jupyter_operator.Common.{
  ℤ, pos, negsuc, ℕ, zero, suc, String, Bool, true, ◌&&◌, Option, none, some, List, [], ◌∷◌, ◌≡◌,
  refl, ap, ◌∙◌, ◌==◌, arith,
}
use jupyter_operator.Types.{Notebook, NotebookSpec, NotebookStatus}
use jupyter_operator.Types.Json.{
  Json, first, optional, non_empty_text, non_zero, non_empty_texts, texts, get-fields_of,
}
use jupyter_operator.Types.Encoding.{
  Codecs, spec_fields, status_fields, notebook_fields, encode_spec, encode_status, encode_notebook,
}
use jupyter_operator.Controller.Crd.{notebook_crd}
use jupyter_operator.OpenApi.Schema.{TimeSchemas, ref, jupyter, array, text}
use jupyter_operator.OpenApi.Jupyter.{notebook_schema, notebook_spec_schema, notebook_status_schema}
use jupyter_operator.OpenApi.Table.{get_open_api_definitions}
use jupyter_operator.OpenApi.Conforms.{type_name, every_item, if_present, keys_conform, conforms}

optional_text :
    (o : Option String)
    → if_present (λ j. type_name j == "string") (first (optional Json.text o) none) ≡ true
optional_text none = refl
optional_text (some s) = refl

every_text :
    (packages : List String) → every_item (λ j. type_name j == "string") (texts packages) ≡ true
every_text [] = refl
every_text (s ∷ rest) = every_text rest

present_texts :
    (test : Json → Bool) (packages : List String)
    → test (Json.array (texts packages)) ≡ true
    → if_present test (first (non_empty_texts packages) none) ≡ true
present_texts test [] h = refl
present_texts test (s ∷ rest) h = h

present_number :
    (n : ℤ) → if_present (λ j. type_name j == "integer") (first (non_zero n) none) ≡ true
present_number (pos zero) = refl
present_number (pos (suc n)) = refl
present_number (negsuc n) = refl

present_text :
    (s : String) → if_present (λ j. type_name j == "string") (first (non_empty_text s) none) ≡ true
present_text s = ground arith

present_anything : (o : Option Json) → if_present (λ j. true) (first o none) ≡ true
present_anything none = refl
present_anything (some j) = refl

module _ (times : TimeSchemas) (codecs : Codecs) where
  spec_conforms :
      (fuel : ℕ) (s : NotebookSpec)
      → conforms
          (get_open_api_definitions times)
          (suc (suc fuel))
          (ref (jupyter "NotebookSpec"))
          (encode_spec codecs s)
        ≡ true
  unfolding conforms encode_spec get_open_api_definitions
  spec_conforms fuel s =
      ap (keys_conform (conforms (get_open_api_definitions times) (suc fuel)) notebook_spec_schema)
        (get-fields_of (spec_fields codecs s))
      ∙ λ i.
          optional_text s.flavor i
          && (optional_text s.host i
              && (present_anything (optional codecs.backend.encode s.ingress) i
                  && (present_texts
                        (conforms (get_open_api_definitions times) (suc fuel) (array text))
                        s.packages (every_text s.packages) i
                      && (optional_text s.password i
                          && (optional_text s.service_account_name i
                              && (optional_text s.tls i && true))))))

  status_conforms :
      (fuel : ℕ) (s : NotebookStatus)
      → conforms
          (get_open_api_definitions times)
          (suc fuel)
          (ref (jupyter "NotebookStatus"))
          (encode_status s)
        ≡ true
  unfolding conforms encode_status get_open_api_definitions
  status_conforms fuel s =
      ap (keys_conform (conforms (get_open_api_definitions times) fuel) notebook_status_schema)
        (get-fields_of (status_fields s))
      ∙ λ i. present_number s.observed_generation i && true

  -- The JSON of every notebook, whichever of its fields are set, conforms to the definition that
  -- `createCRD` names for the CRD: the properties that it has are of the types that the
  -- definition gives them, and those that the definition requires are there. An ingress
  -- conforms whatever it is, as the table has no definition for its type. Twelve levels of
  -- references are resolved.
  pub encode_notebook-conforms :
      (n : Notebook)
      → conforms
          (get_open_api_definitions times)
          12
          (ref notebook_crd.spec_definition_name)
          (encode_notebook codecs n)
        ≡ true
  unfolding conforms encode_notebook get_open_api_definitions
  encode_notebook-conforms n =
      ap (keys_conform (conforms (get_open_api_definitions times) 11) notebook_schema)
        (get-fields_of (notebook_fields codecs n))
      ∙ λ i.
          present_text n.kind i
          && (present_text n.api_version i
              && (spec_conforms 9 n.spec i && (status_conforms 10 n.status i && true)))
