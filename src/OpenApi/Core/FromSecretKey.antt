-- ===== src/OpenApi/Core/FromSecretKey.antt =====
-- pkg/apis/jupyter/v1/openapi_generated.go: the schemas of the core types from `SecretKeySelector` to `ServiceList`.
use jupyter_operator.Common.{String, List, [], ◌∷◌, some}
use jupyter_operator.OpenApi.Schema.{
  Definition, array, boolean, core, int32, int64, merged, meta, object, ref, text,
}

abbrev pub secret_key_selector_schema : Definition
secret_key_selector_schema =
    object (("name", text) ∷ ("key", text) ∷ ("optional", boolean) ∷ []) ("key" ∷ []) ([])

abbrev pub secret_list_schema : Definition
secret_list_schema =
    object
      (("kind", text)
        ∷ ("apiVersion", text)
        ∷ ("metadata", ref (meta "ListMeta"))
        ∷ ("items", array (ref (core "Secret")))
        ∷ [])
      ("items" ∷ []) (core "Secret" ∷ meta "ListMeta" ∷ [])

abbrev pub secret_projection_schema : Definition
secret_projection_schema =
    object (("name", text) ∷ ("items", array (ref (core "KeyToPath"))) ∷ ("optional", boolean) ∷ [])
      ([]) (core "KeyToPath" ∷ [])

abbrev pub secret_reference_schema : Definition
secret_reference_schema = object (("name", text) ∷ ("namespace", text) ∷ []) ([]) ([])

abbrev pub secret_volume_source_schema : Definition
secret_volume_source_schema =
    object
      (("secretName", text)
        ∷ ("items", array (ref (core "KeyToPath")))
        ∷ ("defaultMode", int32)
        ∷ ("optional", boolean)
        ∷ [])
      ([]) (core "KeyToPath" ∷ [])

abbrev pub security_context_schema : Definition
security_context_schema =
    object
      (("capabilities", ref (core "Capabilities"))
        ∷ ("privileged", boolean)
        ∷ ("seLinuxOptions", ref (core "SELinuxOptions"))
        ∷ ("runAsUser", int64)
        ∷ ("runAsGroup", int64)
        ∷ ("runAsNonRoot", boolean)
        ∷ ("readOnlyRootFilesystem", boolean)
        ∷ ("allowPrivilegeEscalation", boolean)
        ∷ ("procMount", text)
        ∷ [])
      ([]) (core "Capabilities" ∷ core "SELinuxOptions" ∷ [])

abbrev pub serialized_reference_schema : Definition
serialized_reference_schema =
    object
      (("kind", text) ∷ ("apiVersion", text) ∷ ("reference", ref (core "ObjectReference")) ∷ [])
      ([]) (core "ObjectReference" ∷ [])

abbrev pub service_schema : Definition
service_schema =
    object
      (("kind", text)
        ∷ ("apiVersion", text)
        ∷ ("metadata", ref (meta "ObjectMeta"))
        ∷ ("spec", ref (core "ServiceSpec"))
        ∷ ("status", ref (core "ServiceStatus"))
        ∷ [])
      ([]) (core "ServiceSpec" ∷ core "ServiceStatus" ∷ meta "ObjectMeta" ∷ [])

abbrev pub service_account_schema : Definition
service_account_schema =
    object
      (("kind", text)
        ∷ ("apiVersion", text)
        ∷ ("metadata", ref (meta "ObjectMeta"))
        ∷ ("secrets", merged (some "name") "merge" (array (ref (core "ObjectReference"))))
        ∷ ("imagePullSecrets", array (ref (core "LocalObjectReference")))
        ∷ ("automountServiceAccountToken", boolean)
        ∷ [])
      ([]) (core "LocalObjectReference" ∷ core "ObjectReference" ∷ meta "ObjectMeta" ∷ [])

abbrev pub service_account_list_schema : Definition
service_account_list_schema =
    object
      (("kind", text)
        ∷ ("apiVersion", text)
        ∷ ("metadata", ref (meta "ListMeta"))
        ∷ ("items", array (ref (core "ServiceAccount")))
        ∷ [])
      ("items" ∷ []) (core "ServiceAccount" ∷ meta "ListMeta" ∷ [])

abbrev pub service_account_token_projection_schema : Definition
service_account_token_projection_schema =
    object (("audience", text) ∷ ("expirationSeconds", int64) ∷ ("path", text) ∷ []) ("path" ∷ [])
      ([])

abbrev pub service_list_schema : Definition
service_list_schema =
    object
      (("kind", text)
        ∷ ("apiVersion", text)
        ∷ ("metadata", ref (meta "ListMeta"))
        ∷ ("items", array (ref (core "Service")))
        ∷ [])
      ("items" ∷ []) (core "Service" ∷ meta "ListMeta" ∷ [])

-- Their entries in `GetOpenAPIDefinitions`.
abbrev pub from_secret_key : List (String × Definition)
from_secret_key =
    (core "SecretKeySelector", secret_key_selector_schema)
    ∷ (core "SecretList", secret_list_schema)
    ∷ (core "SecretProjection", secret_projection_schema)
    ∷ (core "SecretReference", secret_reference_schema)
    ∷ (core "SecretVolumeSource", secret_volume_source_schema)
    ∷ (core "SecurityContext", security_context_schema)
    ∷ (core "SerializedReference", serialized_reference_schema)
    ∷ (core "Service", service_schema)
    ∷ (core "ServiceAccount", service_account_schema)
    ∷ (core "ServiceAccountList", service_account_list_schema)
    ∷ (core "ServiceAccountTokenProjection", service_account_token_projection_schema)
    ∷ (core "ServiceList", service_list_schema)
    ∷ []
