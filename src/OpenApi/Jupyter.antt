-- ===== src/OpenApi/Jupyter.antt =====
-- pkg/apis/jupyter/v1/openapi_generated.go: the schemas of the notebook.
use jupyter_operator.Common.{String, List, [], ◌∷◌}
use jupyter_operator.OpenApi.Schema.{Definition, array, boolean, int64, jupyter, object, ref, text}

abbrev pub notebook_schema : Definition
notebook_schema =
    object
      (("kind", text)
        ∷ ("apiVersion", text)
        ∷ ("spec", ref (jupyter "NotebookSpec"))
        ∷ ("status", ref (jupyter "NotebookStatus"))
        ∷ [])
      ("spec" ∷ []) (jupyter "NotebookSpec" ∷ jupyter "NotebookStatus" ∷ [])

abbrev pub notebook_spec_schema : Definition
notebook_spec_schema =
    object
      (("flavor", text)
        ∷ ("gpu", boolean)
        ∷ ("host", text)
        ∷ ("ingress", ref "k8s.io/api/extensions/v1beta1.IngressBackend")
        ∷ ("packages", array text)
        ∷ ("password", text)
        ∷ ("serviceAccountName", text)
        ∷ ("tls", text)
        ∷ [])
      ("gpu" ∷ []) ("k8s.io/api/extensions/v1beta1.IngressBackend" ∷ [])

abbrev pub notebook_status_schema : Definition
notebook_status_schema =
    object (("observedGeneration", int64) ∷ ("phase", text) ∷ []) ("phase" ∷ []) ([])

-- Their entries in `GetOpenAPIDefinitions`.
abbrev pub jupyter_definitions : List (String × Definition)
jupyter_definitions =
    (jupyter "Notebook", notebook_schema)
    ∷ (jupyter "NotebookSpec", notebook_spec_schema)
    ∷ (jupyter "NotebookStatus", notebook_status_schema)
    ∷ []
