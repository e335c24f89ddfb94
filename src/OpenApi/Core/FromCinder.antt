-- ===== src/OpenApi/Core/FromCinder.antt =====
-- pkg/apis/jupyter/v1/openapi_generated.go: the schemas of the core types from `CinderVolumeSource` to `ConfigMapVolumeSource`.
use jupyter_operator.Common.{String, List, [], ◌∷◌, some}
use jupyter_operator.OpenApi.Schema.{
  Definition, array, boolean, bytes, core, int32, map_of, merged, meta, object, ref, text,
}

abbrev pub cinder_volume_source_schema : Definition
cinder_volume_source_schema =
    object
      (("volumeID", text)
        ∷ ("fsType", text)
        ∷ ("readOnly", boolean)
        ∷ ("secretRef", ref (core "LocalObjectReference"))
        ∷ [])
      ("volumeID" ∷ []) (core "LocalObjectReference" ∷ [])

abbrev pub client_ip_config_schema : Definition
client_ip_config_schema = object (("timeoutSeconds", int32) ∷ []) ([]) ([])

abbrev pub component_condition_schema : Definition
component_condition_schema =
    object (("type", text) ∷ ("status", text) ∷ ("message", text) ∷ ("error", text) ∷ [])
      ("type" ∷ "status" ∷ []) ([])

abbrev pub component_status_schema : Definition
component_status_schema =
    object
      (("kind", text)
        ∷ ("apiVersion", text)
        ∷ ("metadata", ref (meta "ObjectMeta"))
        ∷ ("conditions", merged (some "type") "merge" (array (ref (core "ComponentCondition"))))
        ∷ [])
      ([]) (core "ComponentCondition" ∷ meta "ObjectMeta" ∷ [])

abbrev pub component_status_list_schema : Definition
component_status_list_schema =
    object
      (("kind", text)
        ∷ ("apiVersion", text)
        ∷ ("metadata", ref (meta "ListMeta"))
        ∷ ("items", array (ref (core "ComponentStatus")))
        ∷ [])
      ("items" ∷ []) (core "ComponentStatus" ∷ meta "ListMeta" ∷ [])

abbrev pub config_map_schema : Definition
config_map_schema =
    object
      (("kind", text)
        ∷ ("apiVersion", text)
        ∷ ("metadata", ref (meta "ObjectMeta"))
        ∷ ("data", map_of text)
        ∷ ("binaryData", map_of bytes)
        ∷ [])
      ([]) (meta "ObjectMeta" ∷ [])

abbrev pub config_map_env_source_schema : Definition
config_map_env_source_schema = object (("name", text) ∷ ("optional", boolean) ∷ []) ([]) ([])

abbrev pub config_map_key_selector_schema : Definition
config_map_key_selector_schema =
    object (("name", text) ∷ ("key", text) ∷ ("optional", boolean) ∷ []) ("key" ∷ []) ([])

abbrev pub config_map_list_schema : Definition
config_map_list_schema =
    object
      (("kind", text)
        ∷ ("apiVersion", text)
        ∷ ("metadata", ref (meta "ListMeta"))
        ∷ ("items", array (ref (core "ConfigMap")))
        ∷ [])
      ("items" ∷ []) (core "ConfigMap" ∷ meta "ListMeta" ∷ [])

abbrev pub config_map_node_config_source_schema : Definition
config_map_node_config_source_schema =
    object
      (("namespace", text)
        ∷ ("name", text)
        ∷ ("uid", text)
        ∷ ("resourceVersion", text)
        ∷ ("kubeletConfigKey", text)
        ∷ [])
      ("namespace" ∷ "name" ∷ "kubeletConfigKey" ∷ []) ([])

abbrev pub config_map_projection_schema : Definition
config_map_projection_schema =
    object (("name", text) ∷ ("items", array (ref (core "KeyToPath"))) ∷ ("optional", boolean) ∷ [])
      ([]) (core "KeyToPath" ∷ [])

abbrev pub config_map_volume_source_schema : Definition
config_map_volume_source_schema =
    object
      (("name", text)
        ∷ ("items", array (ref (core "KeyToPath")))
        ∷ ("defaultMode", int32)
        ∷ ("optional", boolean)
        ∷ [])
      ([]) (core "KeyToPath" ∷ [])

-- Their entries in `GetOpenAPIDefinitions`.
abbrev pub from_cinder : List (String × Definition)
from_cinder =
    (core "CinderVolumeSource", cinder_volume_source_schema)
    ∷ (core "ClientIPConfig", client_ip_config_schema)
    ∷ (core "ComponentCondition", component_condition_schema)
    ∷ (core "ComponentStatus", component_status_schema)
    ∷ (core "ComponentStatusList", component_status_list_schema)
    ∷ (core "ConfigMap", config_map_schema)
    ∷ (core "ConfigMapEnvSource", config_map_env_source_schema)
    ∷ (core "ConfigMapKeySelector", config_map_key_selector_schema)
    ∷ (core "ConfigMapList", config_map_list_schema)
    ∷ (core "ConfigMapNodeConfigSource", config_map_node_config_source_schema)
    ∷ (core "ConfigMapProjection", config_map_projection_schema)
    ∷ (core "ConfigMapVolumeSource", config_map_volume_source_schema)
    ∷ []
