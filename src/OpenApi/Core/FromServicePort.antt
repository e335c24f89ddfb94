-- ===== src/OpenApi/Core/FromServicePort.antt =====
-- pkg/apis/jupyter/v1/openapi_generated.go: the schemas of the core types from `ServicePort` to `TypedLocalObjectReference`.
use jupyter_operator.Common.{String, List, [], ◌∷◌, some}
use jupyter_operator.OpenApi.Schema.{
  Definition, array, boolean, core, int32, int64, map_of, merged, meta, object, ref, text,
}

abbrev pub service_port_schema : Definition
service_port_schema =
    object
      (("name", text)
        ∷ ("protocol", text)
        ∷ ("port", int32)
        ∷ ("targetPort", ref "k8s.io/apimachinery/pkg/util/intstr.IntOrString")
        ∷ ("nodePort", int32)
        ∷ [])
      ("port" ∷ []) ("k8s.io/apimachinery/pkg/util/intstr.IntOrString" ∷ [])

abbrev pub service_proxy_options_schema : Definition
service_proxy_options_schema =
    object (("kind", text) ∷ ("apiVersion", text) ∷ ("path", text) ∷ []) ([]) ([])

abbrev pub service_spec_schema : Definition
service_spec_schema =
    object
      (("ports", merged (some "port") "merge" (array (ref (core "ServicePort"))))
        ∷ ("selector", map_of text)
        ∷ ("clusterIP", text)
        ∷ ("type", text)
        ∷ ("externalIPs", array text)
        ∷ ("sessionAffinity", text)
        ∷ ("loadBalancerIP", text)
        ∷ ("loadBalancerSourceRanges", array text)
        ∷ ("externalName", text)
        ∷ ("externalTrafficPolicy", text)
        ∷ ("healthCheckNodePort", int32)
        ∷ ("publishNotReadyAddresses", boolean)
        ∷ ("sessionAffinityConfig", ref (core "SessionAffinityConfig"))
        ∷ [])
      ([]) (core "ServicePort" ∷ core "SessionAffinityConfig" ∷ [])

abbrev pub service_status_schema : Definition
service_status_schema =
    object (("loadBalancer", ref (core "LoadBalancerStatus")) ∷ []) ([])
      (core "LoadBalancerStatus" ∷ [])

abbrev pub session_affinity_config_schema : Definition
session_affinity_config_schema =
    object (("clientIP", ref (core "ClientIPConfig")) ∷ []) ([]) (core "ClientIPConfig" ∷ [])

abbrev pub storage_os_persistent_volume_source_schema : Definition
storage_os_persistent_volume_source_schema =
    object
      (("volumeName", text)
        ∷ ("volumeNamespace", text)
        ∷ ("fsType", text)
        ∷ ("readOnly", boolean)
        ∷ ("secretRef", ref (core "ObjectReference"))
        ∷ [])
      ([]) (core "ObjectReference" ∷ [])

abbrev pub storage_os_volume_source_schema : Definition
storage_os_volume_source_schema =
    object
      (("volumeName", text)
        ∷ ("volumeNamespace", text)
        ∷ ("fsType", text)
        ∷ ("readOnly", boolean)
        ∷ ("secretRef", ref (core "LocalObjectReference"))
        ∷ [])
      ([]) (core "LocalObjectReference" ∷ [])

abbrev pub sysctl_schema : Definition
sysctl_schema = object (("name", text) ∷ ("value", text) ∷ []) ("name" ∷ "value" ∷ []) ([])

abbrev pub tcp_socket_action_schema : Definition
tcp_socket_action_schema =
    object (("port", ref "k8s.io/apimachinery/pkg/util/intstr.IntOrString") ∷ ("host", text) ∷ [])
      ("port" ∷ []) ("k8s.io/apimachinery/pkg/util/intstr.IntOrString" ∷ [])

abbrev pub taint_schema : Definition
taint_schema =
    object
      (("key", text) ∷ ("value", text) ∷ ("effect", text) ∷ ("timeAdded", ref (meta "Time")) ∷ [])
      ("key" ∷ "effect" ∷ []) (meta "Time" ∷ [])

abbrev pub toleration_schema : Definition
toleration_schema =
    object
      (("key", text)
        ∷ ("operator", text)
        ∷ ("value", text)
        ∷ ("effect", text)
        ∷ ("tolerationSeconds", int64)
        ∷ [])
      ([]) ([])

abbrev pub topology_selector_label_requirement_schema : Definition
topology_selector_label_requirement_schema =
    object (("key", text) ∷ ("values", array text) ∷ []) ("key" ∷ "values" ∷ []) ([])

abbrev pub topology_selector_term_schema : Definition
topology_selector_term_schema =
    object (("matchLabelExpressions", array (ref (core "TopologySelectorLabelRequirement"))) ∷ [])
      ([]) (core "TopologySelectorLabelRequirement" ∷ [])

abbrev pub typed_local_object_reference_schema : Definition
typed_local_object_reference_schema =
    object (("apiGroup", text) ∷ ("kind", text) ∷ ("name", text) ∷ []) ("kind" ∷ "name" ∷ []) ([])

-- Their entries in `GetOpenAPIDefinitions`.
abbrev pub from_service_port : List (String × Definition)
from_service_port =
    (core "ServicePort", service_port_schema)
    ∷ (core "ServiceProxyOptions", service_proxy_options_schema)
    ∷ (core "ServiceSpec", service_spec_schema)
    ∷ (core "ServiceStatus", service_status_schema)
    ∷ (core "SessionAffinityConfig", session_affinity_config_schema)
    ∷ (core "StorageOSPersistentVolumeSource", storage_os_persistent_volume_source_schema)
    ∷ (core "StorageOSVolumeSource", storage_os_volume_source_schema)
    ∷ (core "Sysctl", sysctl_schema)
    ∷ (core "TCPSocketAction", tcp_socket_action_schema)
    ∷ (core "Taint", taint_schema)
    ∷ (core "Toleration", toleration_schema)
    ∷ (core "TopologySelectorLabelRequirement", topology_selector_label_requirement_schema)
    ∷ (core "TopologySelectorTerm", topology_selector_term_schema)
    ∷ (core "TypedLocalObjectReference", typed_local_object_reference_schema)
    ∷ []
