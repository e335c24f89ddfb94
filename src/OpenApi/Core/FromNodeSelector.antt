-- ===== src/OpenApi/Core/FromNodeSelector.antt =====
-- pkg/apis/jupyter/v1/openapi_generated.go: the schemas of the core types from `NodeSelector` to `PersistentVolumeClaimCondition`.
use jupyter_operator.Common.{String, List, [], ◌∷◌, some}
use jupyter_operator.OpenApi.Schema.{
  Definition, array, boolean, core, map_of, merged, meta, object, ref, text,
}

abbrev pub node_selector_schema : Definition
node_selector_schema =
    object (("nodeSelectorTerms", array (ref (core "NodeSelectorTerm"))) ∷ [])
      ("nodeSelectorTerms" ∷ []) (core "NodeSelectorTerm" ∷ [])

abbrev pub node_selector_requirement_schema : Definition
node_selector_requirement_schema =
    object (("key", text) ∷ ("operator", text) ∷ ("values", array text) ∷ [])
      ("key" ∷ "operator" ∷ []) ([])

abbrev pub node_selector_term_schema : Definition
node_selector_term_schema =
    object
      (("matchExpressions", array (ref (core "NodeSelectorRequirement")))
        ∷ ("matchFields", array (ref (core "NodeSelectorRequirement")))
        ∷ [])
      ([]) (core "NodeSelectorRequirement" ∷ [])

abbrev pub node_spec_schema : Definition
node_spec_schema =
    object
      (("podCIDR", text)
        ∷ ("providerID", text)
        ∷ ("unschedulable", boolean)
        ∷ ("taints", array (ref (core "Taint")))
        ∷ ("configSource", ref (core "NodeConfigSource"))
        ∷ ("externalID", text)
        ∷ [])
      ([]) (core "NodeConfigSource" ∷ core "Taint" ∷ [])

abbrev pub node_status_schema : Definition
node_status_schema =
    object
      (("capacity", map_of (ref "k8s.io/apimachinery/pkg/api/resource.Quantity"))
        ∷ ("allocatable", map_of (ref "k8s.io/apimachinery/pkg/api/resource.Quantity"))
        ∷ ("phase", text)
        ∷ ("conditions", merged (some "type") "merge" (array (ref (core "NodeCondition"))))
        ∷ ("addresses", merged (some "type") "merge" (array (ref (core "NodeAddress"))))
        ∷ ("daemonEndpoints", ref (core "NodeDaemonEndpoints"))
        ∷ ("nodeInfo", ref (core "NodeSystemInfo"))
        ∷ ("images", array (ref (core "ContainerImage")))
        ∷ ("volumesInUse", array text)
        ∷ ("volumesAttached", array (ref (core "AttachedVolume")))
        ∷ ("config", ref (core "NodeConfigStatus"))
        ∷ [])
      ([])
      (core "AttachedVolume"
        ∷ core "ContainerImage"
        ∷ core "NodeAddress"
        ∷ core "NodeCondition"
        ∷ core "NodeConfigStatus"
        ∷ core "NodeDaemonEndpoints"
        ∷ core "NodeSystemInfo"
        ∷ "k8s.io/apimachinery/pkg/api/resource.Quantity"
        ∷ [])

abbrev pub node_system_info_schema : Definition
node_system_info_schema =
    object
      (("machineID", text)
        ∷ ("systemUUID", text)
        ∷ ("bootID", text)
        ∷ ("kernelVersion", text)
        ∷ ("osImage", text)
        ∷ ("containerRuntimeVersion", text)
        ∷ ("kubeletVersion", text)
        ∷ ("kubeProxyVersion", text)
        ∷ ("operatingSystem", text)
        ∷ ("architecture", text)
        ∷ [])
      ("machineID" ∷ "systemUUID" ∷ "bootID" ∷ "kernelVersion" ∷ "osImage"
        ∷ "containerRuntimeVersion" ∷ "kubeletVersion" ∷ "kubeProxyVersion" ∷ "operatingSystem"
        ∷ "architecture" ∷ [])
      ([])

abbrev pub object_field_selector_schema : Definition
object_field_selector_schema =
    object (("apiVersion", text) ∷ ("fieldPath", text) ∷ []) ("fieldPath" ∷ []) ([])

abbrev pub object_reference_schema : Definition
object_reference_schema =
    object
      (("kind", text)
        ∷ ("namespace", text)
        ∷ ("name", text)
        ∷ ("uid", text)
        ∷ ("apiVersion", text)
        ∷ ("resourceVersion", text)
        ∷ ("fieldPath", text)
        ∷ [])
      ([]) ([])

abbrev pub persistent_volume_schema : Definition
persistent_volume_schema =
    object
      (("kind", text)
        ∷ ("apiVersion", text)
        ∷ ("metadata", ref (meta "ObjectMeta"))
        ∷ ("spec", ref (core "PersistentVolumeSpec"))
        ∷ ("status", ref (core "PersistentVolumeStatus"))
        ∷ [])
      ([]) (core "PersistentVolumeSpec" ∷ core "PersistentVolumeStatus" ∷ meta "ObjectMeta" ∷ [])

abbrev pub persistent_volume_claim_schema : Definition
persistent_volume_claim_schema =
    object
      (("kind", text)
        ∷ ("apiVersion", text)
        ∷ ("metadata", ref (meta "ObjectMeta"))
        ∷ ("spec", ref (core "PersistentVolumeClaimSpec"))
        ∷ ("status", ref (core "PersistentVolumeClaimStatus"))
        ∷ [])
      ([])
      (core "PersistentVolumeClaimSpec"
        ∷ core "PersistentVolumeClaimStatus"
        ∷ meta "ObjectMeta"
        ∷ [])

abbrev pub persistent_volume_claim_condition_schema : Definition
persistent_volume_claim_condition_schema =
    object
      (("type", text)
        ∷ ("status", text)
        ∷ ("lastProbeTime", ref (meta "Time"))
        ∷ ("lastTransitionTime", ref (meta "Time"))
        ∷ ("reason", text)
        ∷ ("message", text)
        ∷ [])
      ("type" ∷ "status" ∷ []) (meta "Time" ∷ [])

-- Their entries in `GetOpenAPIDefinitions`.
abbrev pub from_node_selector : List (String × Definition)
from_node_selector =
    (core "NodeSelector", node_selector_schema)
    ∷ (core "NodeSelectorRequirement", node_selector_requirement_schema)
    ∷ (core "NodeSelectorTerm", node_selector_term_schema)
    ∷ (core "NodeSpec", node_spec_schema)
    ∷ (core "NodeStatus", node_status_schema)
    ∷ (core "NodeSystemInfo", node_system_info_schema)
    ∷ (core "ObjectFieldSelector", object_field_selector_schema)
    ∷ (core "ObjectReference", object_reference_schema)
    ∷ (core "PersistentVolume", persistent_volume_schema)
    ∷ (core "PersistentVolumeClaim", persistent_volume_claim_schema)
    ∷ (core "PersistentVolumeClaimCondition", persistent_volume_claim_condition_schema)
    ∷ []
