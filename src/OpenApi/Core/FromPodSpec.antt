-- ===== src/OpenApi/Core/FromPodSpec.antt =====
-- pkg/apis/jupyter/v1/openapi_generated.go: the schemas of the core types from `PodSpec` to `PreferredSchedulingTerm`.
use jupyter_operator.Common.{String, List, [], ◌∷◌, some}
use jupyter_operator.OpenApi.Schema.{
  Definition, array, boolean, core, int32, int64, map_of, merged, meta, object, ref, text,
}

abbrev pub pod_spec_schema : Definition
pod_spec_schema =
    object
      (("volumes", merged (some "name") "merge,retainKeys" (array (ref (core "Volume"))))
        ∷ ("initContainers", merged (some "name") "merge" (array (ref (core "Container"))))
        ∷ ("containers", merged (some "name") "merge" (array (ref (core "Container"))))
        ∷ ("restartPolicy", text)
        ∷ ("terminationGracePeriodSeconds", int64)
        ∷ ("activeDeadlineSeconds", int64)
        ∷ ("dnsPolicy", text)
        ∷ ("nodeSelector", map_of text)
        ∷ ("serviceAccountName", text)
        ∷ ("serviceAccount", text)
        ∷ ("automountServiceAccountToken", boolean)
        ∷ ("nodeName", text)
        ∷ ("hostNetwork", boolean)
        ∷ ("hostPID", boolean)
        ∷ ("hostIPC", boolean)
        ∷ ("shareProcessNamespace", boolean)
        ∷ ("securityContext", ref (core "PodSecurityContext"))
        ∷ (
          "imagePullSecrets",
          merged (some "name") "merge" (array (ref (core "LocalObjectReference"))),
        )
        ∷ ("hostname", text)
        ∷ ("subdomain", text)
        ∷ ("affinity", ref (core "Affinity"))
        ∷ ("schedulerName", text)
        ∷ ("tolerations", array (ref (core "Toleration")))
        ∷ ("hostAliases", merged (some "ip") "merge" (array (ref (core "HostAlias"))))
        ∷ ("priorityClassName", text)
        ∷ ("priority", int32)
        ∷ ("dnsConfig", ref (core "PodDNSConfig"))
        ∷ ("readinessGates", array (ref (core "PodReadinessGate")))
        ∷ ("runtimeClassName", text)
        ∷ [])
      ("containers" ∷ [])
      (core "Affinity"
        ∷ core "Container"
        ∷ core "HostAlias"
        ∷ core "LocalObjectReference"
        ∷ core "PodDNSConfig"
        ∷ core "PodReadinessGate"
        ∷ core "PodSecurityContext"
        ∷ core "Toleration"
        ∷ core "Volume"
        ∷ [])

abbrev pub pod_status_schema : Definition
pod_status_schema =
    object
      (("phase", text)
        ∷ ("conditions", merged (some "type") "merge" (array (ref (core "PodCondition"))))
        ∷ ("message", text)
        ∷ ("reason", text)
        ∷ ("nominatedNodeName", text)
        ∷ ("hostIP", text)
        ∷ ("podIP", text)
        ∷ ("startTime", ref (meta "Time"))
        ∷ ("initContainerStatuses", array (ref (core "ContainerStatus")))
        ∷ ("containerStatuses", array (ref (core "ContainerStatus")))
        ∷ ("qosClass", text)
        ∷ [])
      ([]) (core "ContainerStatus" ∷ core "PodCondition" ∷ meta "Time" ∷ [])

abbrev pub pod_status_result_schema : Definition
pod_status_result_schema =
    object
      (("kind", text)
        ∷ ("apiVersion", text)
        ∷ ("metadata", ref (meta "ObjectMeta"))
        ∷ ("status", ref (core "PodStatus"))
        ∷ [])
      ([]) (core "PodStatus" ∷ meta "ObjectMeta" ∷ [])

abbrev pub pod_template_schema : Definition
pod_template_schema =
    object
      (("kind", text)
        ∷ ("apiVersion", text)
        ∷ ("metadata", ref (meta "ObjectMeta"))
        ∷ ("template", ref (core "PodTemplateSpec"))
        ∷ [])
      ([]) (core "PodTemplateSpec" ∷ meta "ObjectMeta" ∷ [])

abbrev pub pod_template_list_schema : Definition
pod_template_list_schema =
    object
      (("kind", text)
        ∷ ("apiVersion", text)
        ∷ ("metadata", ref (meta "ListMeta"))
        ∷ ("items", array (ref (core "PodTemplate")))
        ∷ [])
      ("items" ∷ []) (core "PodTemplate" ∷ meta "ListMeta" ∷ [])

abbrev pub pod_template_spec_schema : Definition
pod_template_spec_schema =
    object (("metadata", ref (meta "ObjectMeta")) ∷ ("spec", ref (core "PodSpec")) ∷ []) ([])
      (core "PodSpec" ∷ meta "ObjectMeta" ∷ [])

abbrev pub portworx_volume_source_schema : Definition
portworx_volume_source_schema =
    object (("volumeID", text) ∷ ("fsType", text) ∷ ("readOnly", boolean) ∷ []) ("volumeID" ∷ [])
      ([])

abbrev pub prefer_avoid_pods_entry_schema : Definition
prefer_avoid_pods_entry_schema =
    object
      (("podSignature", ref (core "PodSignature"))
        ∷ ("evictionTime", ref (meta "Time"))
        ∷ ("reason", text)
        ∷ ("message", text)
        ∷ [])
      ("podSignature" ∷ []) (core "PodSignature" ∷ meta "Time" ∷ [])

abbrev pub preferred_scheduling_term_schema : Definition
preferred_scheduling_term_schema =
    object (("weight", int32) ∷ ("preference", ref (core "NodeSelectorTerm")) ∷ [])
      ("weight" ∷ "preference" ∷ []) (core "NodeSelectorTerm" ∷ [])

-- Their entries in `GetOpenAPIDefinitions`.
abbrev pub from_pod_spec : List (String × Definition)
from_pod_spec =
    (core "PodSpec", pod_spec_schema)
    ∷ (core "PodStatus", pod_status_schema)
    ∷ (core "PodStatusResult", pod_status_result_schema)
    ∷ (core "PodTemplate", pod_template_schema)
    ∷ (core "PodTemplateList", pod_template_list_schema)
    ∷ (core "PodTemplateSpec", pod_template_spec_schema)
    ∷ (core "PortworxVolumeSource", portworx_volume_source_schema)
    ∷ (core "PreferAvoidPodsEntry", prefer_avoid_pods_entry_schema)
    ∷ (core "PreferredSchedulingTerm", preferred_scheduling_term_schema)
    ∷ []
