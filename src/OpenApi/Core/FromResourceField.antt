-- ===== src/OpenApi/Core/FromResourceField.antt =====
-- pkg/apis/jupyter/v1/openapi_generated.go: the schemas of the core types from `ResourceFieldSelector` to `SecretEnvSource`.
use jupyter_operator.Common.{String, List, [], ◌∷◌}
use jupyter_operator.OpenApi.Schema.{
  Definition, array, boolean, bytes, core, map_of, meta, object, ref, text,
}

abbrev pub resource_field_selector_schema : Definition
resource_field_selector_schema =
    object
      (("containerName", text)
        ∷ ("resource", text)
        ∷ ("divisor", ref "k8s.io/apimachinery/pkg/api/resource.Quantity")
        ∷ [])
      ("resource" ∷ []) ("k8s.io/apimachinery/pkg/api/resource.Quantity" ∷ [])

abbrev pub resource_quota_schema : Definition
resource_quota_schema =
    object
      (("kind", text)
        ∷ ("apiVersion", text)
        ∷ ("metadata", ref (meta "ObjectMeta"))
        ∷ ("spec", ref (core "ResourceQuotaSpec"))
        ∷ ("status", ref (core "ResourceQuotaStatus"))
        ∷ [])
      ([]) (core "ResourceQuotaSpec" ∷ core "ResourceQuotaStatus" ∷ meta "ObjectMeta" ∷ [])

abbrev pub resource_quota_list_schema : Definition
resource_quota_list_schema =
    object
      (("kind", text)
        ∷ ("apiVersion", text)
        ∷ ("metadata", ref (meta "ListMeta"))
        ∷ ("items", array (ref (core "ResourceQuota")))
        ∷ [])
      ("items" ∷ []) (core "ResourceQuota" ∷ meta "ListMeta" ∷ [])

abbrev pub resource_quota_spec_schema : Definition
resource_quota_spec_schema =
    object
      (("hard", map_of (ref "k8s.io/apimachinery/pkg/api/resource.Quantity"))
        ∷ ("scopes", array text)
        ∷ ("scopeSelector", ref (core "ScopeSelector"))
        ∷ [])
      ([]) (core "ScopeSelector" ∷ "k8s.io/apimachinery/pkg/api/resource.Quantity" ∷ [])

abbrev pub resource_quota_status_schema : Definition
resource_quota_status_schema =
    object
      (("hard", map_of (ref "k8s.io/apimachinery/pkg/api/resource.Quantity"))
        ∷ ("used", map_of (ref "k8s.io/apimachinery/pkg/api/resource.Quantity"))
        ∷ [])
      ([]) ("k8s.io/apimachinery/pkg/api/resource.Quantity" ∷ [])

abbrev pub resource_requirements_schema : Definition
resource_requirements_schema =
    object
      (("limits", map_of (ref "k8s.io/apimachinery/pkg/api/resource.Quantity"))
        ∷ ("requests", map_of (ref "k8s.io/apimachinery/pkg/api/resource.Quantity"))
        ∷ [])
      ([]) ("k8s.io/apimachinery/pkg/api/resource.Quantity" ∷ [])

abbrev pub se_linux_options_schema : Definition
se_linux_options_schema =
    object (("user", text) ∷ ("role", text) ∷ ("type", text) ∷ ("level", text) ∷ []) ([]) ([])

abbrev pub scale_io_persistent_volume_source_schema : Definition
scale_io_persistent_volume_source_schema =
    object
      (("gateway", text)
        ∷ ("system", text)
        ∷ ("secretRef", ref (core "SecretReference"))
        ∷ ("sslEnabled", boolean)
        ∷ ("protectionDomain", text)
        ∷ ("storagePool", text)
        ∷ ("storageMode", text)
        ∷ ("volumeName", text)
        ∷ ("fsType", text)
        ∷ ("readOnly", boolean)
        ∷ [])
      ("gateway" ∷ "system" ∷ "secretRef" ∷ []) (core "SecretReference" ∷ [])

abbrev pub scale_io_volume_source_schema : Definition
scale_io_volume_source_schema =
    object
      (("gateway", text)
        ∷ ("system", text)
        ∷ ("secretRef", ref (core "LocalObjectReference"))
        ∷ ("sslEnabled", boolean)
        ∷ ("protectionDomain", text)
        ∷ ("storagePool", text)
        ∷ ("storageMode", text)
        ∷ ("volumeName", text)
        ∷ ("fsType", text)
        ∷ ("readOnly", boolean)
        ∷ [])
      ("gateway" ∷ "system" ∷ "secretRef" ∷ []) (core "LocalObjectReference" ∷ [])

abbrev pub scope_selector_schema : Definition
scope_selector_schema =
    object (("matchExpressions", array (ref (core "ScopedResourceSelectorRequirement"))) ∷ []) ([])
      (core "ScopedResourceSelectorRequirement" ∷ [])

abbrev pub scoped_resource_selector_requirement_schema : Definition
scoped_resource_selector_requirement_schema =
    object (("scopeName", text) ∷ ("operator", text) ∷ ("values", array text) ∷ [])
      ("scopeName" ∷ "operator" ∷ []) ([])

abbrev pub secret_schema : Definition
secret_schema =
    object
      (("kind", text)
        ∷ ("apiVersion", text)
        ∷ ("metadata", ref (meta "ObjectMeta"))
        ∷ ("data", map_of bytes)
        ∷ ("stringData", map_of text)
        ∷ ("type", text)
        ∷ [])
      ([]) (meta "ObjectMeta" ∷ [])

abbrev pub secret_env_source_schema : Definition
secret_env_source_schema = object (("name", text) ∷ ("optional", boolean) ∷ []) ([]) ([])

-- Their entries in `GetOpenAPIDefinitions`.
abbrev pub from_resource_field : List (String × Definition)
from_resource_field =
    (core "ResourceFieldSelector", resource_field_selector_schema)
    ∷ (core "ResourceQuota", resource_quota_schema)
    ∷ (core "ResourceQuotaList", resource_quota_list_schema)
    ∷ (core "ResourceQuotaSpec", resource_quota_spec_schema)
    ∷ (core "ResourceQuotaStatus", resource_quota_status_schema)
    ∷ (core "ResourceRequirements", resource_requirements_schema)
    ∷ (core "SELinuxOptions", se_linux_options_schema)
    ∷ (core "ScaleIOPersistentVolumeSource", scale_io_persistent_volume_source_schema)
    ∷ (core "ScaleIOVolumeSource", scale_io_volume_source_schema)
    ∷ (core "ScopeSelector", scope_selector_schema)
    ∷ (core "ScopedResourceSelectorRequirement", scoped_resource_selector_requirement_schema)
    ∷ (core "Secret", secret_schema)
    ∷ (core "SecretEnvSource", secret_env_source_schema)
    ∷ []
