-- ===== src/OpenApi/Core/FromNfs.antt =====
-- pkg/apis/jupyter/v1/openapi_generated.go: the schemas of the core types from `NFSVolumeSource` to `NodeResources`.
use jupyter_operator.Common.{String, List, [], ◌∷◌}
use jupyter_operator.OpenApi.Schema.{
  Definition, array, boolean, core, map_of, meta, object, ref, text,
}

abbrev pub nfs_volume_source_schema : Definition
nfs_volume_source_schema =
    object (("server", text) ∷ ("path", text) ∷ ("readOnly", boolean) ∷ []) ("server" ∷ "path" ∷ [])
      ([])

abbrev pub namespace_schema : Definition
namespace_schema =
    object
      (("kind", text)
        ∷ ("apiVersion", text)
        ∷ ("metadata", ref (meta "ObjectMeta"))
        ∷ ("spec", ref (core "NamespaceSpec"))
        ∷ ("status", ref (core "NamespaceStatus"))
        ∷ [])
      ([]) (core "NamespaceSpec" ∷ core "NamespaceStatus" ∷ meta "ObjectMeta" ∷ [])

abbrev pub namespace_list_schema : Definition
namespace_list_schema =
    object
      (("kind", text)
        ∷ ("apiVersion", text)
        ∷ ("metadata", ref (meta "ListMeta"))
        ∷ ("items", array (ref (core "Namespace")))
        ∷ [])
      ("items" ∷ []) (core "Namespace" ∷ meta "ListMeta" ∷ [])

abbrev pub namespace_spec_schema : Definition
namespace_spec_schema = object (("finalizers", array text) ∷ []) ([]) ([])

abbrev pub namespace_status_schema : Definition
namespace_status_schema = object (("phase", text) ∷ []) ([]) ([])

abbrev pub node_schema : Definition
node_schema =
    object
      (("kind", text)
        ∷ ("apiVersion", text)
        ∷ ("metadata", ref (meta "ObjectMeta"))
        ∷ ("spec", ref (core "NodeSpec"))
        ∷ ("status", ref (core "NodeStatus"))
        ∷ [])
      ([]) (core "NodeSpec" ∷ core "NodeStatus" ∷ meta "ObjectMeta" ∷ [])

abbrev pub node_address_schema : Definition
node_address_schema =
    object (("type", text) ∷ ("address", text) ∷ []) ("type" ∷ "address" ∷ []) ([])

abbrev pub node_affinity_schema : Definition
node_affinity_schema =
    object
      (("requiredDuringSchedulingIgnoredDuringExecution", ref (core "NodeSelector"))
        ∷ (
          "preferredDuringSchedulingIgnoredDuringExecution",
          array (ref (core "PreferredSchedulingTerm")),
        )
        ∷ [])
      ([]) (core "NodeSelector" ∷ core "PreferredSchedulingTerm" ∷ [])

abbrev pub node_condition_schema : Definition
node_condition_schema =
    object
      (("type", text)
        ∷ ("status", text)
        ∷ ("lastHeartbeatTime", ref (meta "Time"))
        ∷ ("lastTransitionTime", ref (meta "Time"))
        ∷ ("reason", text)
        ∷ ("message", text)
        ∷ [])
      ("type" ∷ "status" ∷ []) (meta "Time" ∷ [])

abbrev pub node_config_source_schema : Definition
node_config_source_schema =
    object (("configMap", ref (core "ConfigMapNodeConfigSource")) ∷ []) ([])
      (core "ConfigMapNodeConfigSource" ∷ [])

abbrev pub node_config_status_schema : Definition
node_config_status_schema =
    object
      (("assigned", ref (core "NodeConfigSource"))
        ∷ ("active", ref (core "NodeConfigSource"))
        ∷ ("lastKnownGood", ref (core "NodeConfigSource"))
        ∷ ("error", text)
        ∷ [])
      ([]) (core "NodeConfigSource" ∷ [])

abbrev pub node_daemon_endpoints_schema : Definition
node_daemon_endpoints_schema =
    object (("kubeletEndpoint", ref (core "DaemonEndpoint")) ∷ []) ([]) (core "DaemonEndpoint" ∷ [])

abbrev pub node_list_schema : Definition
node_list_schema =
    object
      (("kind", text)
        ∷ ("apiVersion", text)
        ∷ ("metadata", ref (meta "ListMeta"))
        ∷ ("items", array (ref (core "Node")))
        ∷ [])
      ("items" ∷ []) (core "Node" ∷ meta "ListMeta" ∷ [])

abbrev pub node_proxy_options_schema : Definition
node_proxy_options_schema =
    object (("kind", text) ∷ ("apiVersion", text) ∷ ("path", text) ∷ []) ([]) ([])

abbrev pub node_resources_schema : Definition
node_resources_schema =
    object (("Capacity", map_of (ref "k8s.io/apimachinery/pkg/api/resource.Quantity")) ∷ [])
      ("Capacity" ∷ []) ("k8s.io/apimachinery/pkg/api/resource.Quantity" ∷ [])

-- Their entries in `GetOpenAPIDefinitions`.
abbrev pub from_nfs : List (String × Definition)
from_nfs =
    (core "NFSVolumeSource", nfs_volume_source_schema)
    ∷ (core "Namespace", namespace_schema)
    ∷ (core "NamespaceList", namespace_list_schema)
    ∷ (core "NamespaceSpec", namespace_spec_schema)
    ∷ (core "NamespaceStatus", namespace_status_schema)
    ∷ (core "Node", node_schema)
    ∷ (core "NodeAddress", node_address_schema)
    ∷ (core "NodeAffinity", node_affinity_schema)
    ∷ (core "NodeCondition", node_condition_schema)
    ∷ (core "NodeConfigSource", node_config_source_schema)
    ∷ (core "NodeConfigStatus", node_config_status_schema)
    ∷ (core "NodeDaemonEndpoints", node_daemon_endpoints_schema)
    ∷ (core "NodeList", node_list_schema)
    ∷ (core "NodeProxyOptions", node_proxy_options_schema)
    ∷ (core "NodeResources", node_resources_schema)
    ∷ []
