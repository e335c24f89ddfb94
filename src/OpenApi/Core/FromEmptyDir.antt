-- ===== src/OpenApi/Core/FromEmptyDir.antt =====
-- pkg/apis/jupyter/v1/openapi_generated.go: the schemas of the core types from `EmptyDirVolumeSource` to `EventSeries`.
use jupyter_operator.Common.{String, List, [], ◌∷◌}
use jupyter_operator.OpenApi.Schema.{Definition, array, core, int32, meta, object, ref, text}

abbrev pub empty_dir_volume_source_schema : Definition
empty_dir_volume_source_schema =
    object
      (("medium", text) ∷ ("sizeLimit", ref "k8s.io/apimachinery/pkg/api/resource.Quantity") ∷ [])
      ([]) ("k8s.io/apimachinery/pkg/api/resource.Quantity" ∷ [])

abbrev pub endpoint_address_schema : Definition
endpoint_address_schema =
    object
      (("ip", text)
        ∷ ("hostname", text)
        ∷ ("nodeName", text)
        ∷ ("targetRef", ref (core "ObjectReference"))
        ∷ [])
      ("ip" ∷ []) (core "ObjectReference" ∷ [])

abbrev pub endpoint_port_schema : Definition
endpoint_port_schema =
    object (("name", text) ∷ ("port", int32) ∷ ("protocol", text) ∷ []) ("port" ∷ []) ([])

abbrev pub endpoint_subset_schema : Definition
endpoint_subset_schema =
    object
      (("addresses", array (ref (core "EndpointAddress")))
        ∷ ("notReadyAddresses", array (ref (core "EndpointAddress")))
        ∷ ("ports", array (ref (core "EndpointPort")))
        ∷ [])
      ([]) (core "EndpointAddress" ∷ core "EndpointPort" ∷ [])

abbrev pub endpoints_schema : Definition
endpoints_schema =
    object
      (("kind", text)
        ∷ ("apiVersion", text)
        ∷ ("metadata", ref (meta "ObjectMeta"))
        ∷ ("subsets", array (ref (core "EndpointSubset")))
        ∷ [])
      ([]) (core "EndpointSubset" ∷ meta "ObjectMeta" ∷ [])

abbrev pub endpoints_list_schema : Definition
endpoints_list_schema =
    object
      (("kind", text)
        ∷ ("apiVersion", text)
        ∷ ("metadata", ref (meta "ListMeta"))
        ∷ ("items", array (ref (core "Endpoints")))
        ∷ [])
      ("items" ∷ []) (core "Endpoints" ∷ meta "ListMeta" ∷ [])

abbrev pub env_from_source_schema : Definition
env_from_source_schema =
    object
      (("prefix", text)
        ∷ ("configMapRef", ref (core "ConfigMapEnvSource"))
        ∷ ("secretRef", ref (core "SecretEnvSource"))
        ∷ [])
      ([]) (core "ConfigMapEnvSource" ∷ core "SecretEnvSource" ∷ [])

abbrev pub env_var_schema : Definition
env_var_schema =
    object (("name", text) ∷ ("value", text) ∷ ("valueFrom", ref (core "EnvVarSource")) ∷ [])
      ("name" ∷ []) (core "EnvVarSource" ∷ [])

abbrev pub env_var_source_schema : Definition
env_var_source_schema =
    object
      (("fieldRef", ref (core "ObjectFieldSelector"))
        ∷ ("resourceFieldRef", ref (core "ResourceFieldSelector"))
        ∷ ("configMapKeyRef", ref (core "ConfigMapKeySelector"))
        ∷ ("secretKeyRef", ref (core "SecretKeySelector"))
        ∷ [])
      ([])
      (core "ConfigMapKeySelector"
        ∷ core "ObjectFieldSelector"
        ∷ core "ResourceFieldSelector"
        ∷ core "SecretKeySelector"
        ∷ [])

abbrev pub event_schema : Definition
event_schema =
    object
      (("kind", text)
        ∷ ("apiVersion", text)
        ∷ ("metadata", ref (meta "ObjectMeta"))
        ∷ ("involvedObject", ref (core "ObjectReference"))
        ∷ ("reason", text)
        ∷ ("message", text)
        ∷ ("source", ref (core "EventSource"))
        ∷ ("firstTimestamp", ref (meta "Time"))
        ∷ ("lastTimestamp", ref (meta "Time"))
        ∷ ("count", int32)
        ∷ ("type", text)
        ∷ ("eventTime", ref (meta "MicroTime"))
        ∷ ("series", ref (core "EventSeries"))
        ∷ ("action", text)
        ∷ ("related", ref (core "ObjectReference"))
        ∷ ("reportingComponent", text)
        ∷ ("reportingInstance", text)
        ∷ [])
      ("metadata" ∷ "involvedObject" ∷ [])
      (core "EventSeries"
        ∷ core "EventSource"
        ∷ core "ObjectReference"
        ∷ meta "MicroTime"
        ∷ meta "ObjectMeta"
        ∷ meta "Time"
        ∷ [])

abbrev pub event_list_schema : Definition
event_list_schema =
    object
      (("kind", text)
        ∷ ("apiVersion", text)
        ∷ ("metadata", ref (meta "ListMeta"))
        ∷ ("items", array (ref (core "Event")))
        ∷ [])
      ("items" ∷ []) (core "Event" ∷ meta "ListMeta" ∷ [])

abbrev pub event_series_schema : Definition
event_series_schema =
    object (("count", int32) ∷ ("lastObservedTime", ref (meta "MicroTime")) ∷ ("state", text) ∷ [])
      ([]) (meta "MicroTime" ∷ [])

-- Their entries in `GetOpenAPIDefinitions`.
abbrev pub from_empty_dir : List (String × Definition)
from_empty_dir =
    (core "EmptyDirVolumeSource", empty_dir_volume_source_schema)
    ∷ (core "EndpointAddress", endpoint_address_schema)
    ∷ (core "EndpointPort", endpoint_port_schema)
    ∷ (core "EndpointSubset", endpoint_subset_schema)
    ∷ (core "Endpoints", endpoints_schema)
    ∷ (core "EndpointsList", endpoints_list_schema)
    ∷ (core "EnvFromSource", env_from_source_schema)
    ∷ (core "EnvVar", env_var_schema)
    ∷ (core "EnvVarSource", env_var_source_schema)
    ∷ (core "Event", event_schema)
    ∷ (core "EventList", event_list_schema)
    ∷ (core "EventSeries", event_series_schema)
    ∷ []
