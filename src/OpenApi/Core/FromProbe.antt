-- ===== src/OpenApi/Core/FromProbe.antt =====
-- pkg/apis/jupyter/v1/openapi_generated.go: the schemas of the core types from `Probe` to `ReplicationControllerStatus`.
use jupyter_operator.Common.{String, List, [], ◌∷◌, some}
use jupyter_operator.OpenApi.Schema.{
  Definition, array, boolean, bytes, core, int32, int64, map_of, merged, meta, object, ref, text,
}

abbrev pub probe_schema : Definition
probe_schema =
    object
      (("exec", ref (core "ExecAction"))
        ∷ ("httpGet", ref (core "HTTPGetAction"))
        ∷ ("tcpSocket", ref (core "TCPSocketAction"))
        ∷ ("initialDelaySeconds", int32)
        ∷ ("timeoutSeconds", int32)
        ∷ ("periodSeconds", int32)
        ∷ ("successThreshold", int32)
        ∷ ("failureThreshold", int32)
        ∷ [])
      ([]) (core "ExecAction" ∷ core "HTTPGetAction" ∷ core "TCPSocketAction" ∷ [])

abbrev pub projected_volume_source_schema : Definition
projected_volume_source_schema =
    object (("sources", array (ref (core "VolumeProjection"))) ∷ ("defaultMode", int32) ∷ [])
      ("sources" ∷ []) (core "VolumeProjection" ∷ [])

abbrev pub quobyte_volume_source_schema : Definition
quobyte_volume_source_schema =
    object
      (("registry", text)
        ∷ ("volume", text)
        ∷ ("readOnly", boolean)
        ∷ ("user", text)
        ∷ ("group", text)
        ∷ [])
      ("registry" ∷ "volume" ∷ []) ([])

abbrev pub rbd_persistent_volume_source_schema : Definition
rbd_persistent_volume_source_schema =
    object
      (("monitors", array text)
        ∷ ("image", text)
        ∷ ("fsType", text)
        ∷ ("pool", text)
        ∷ ("user", text)
        ∷ ("keyring", text)
        ∷ ("secretRef", ref (core "SecretReference"))
        ∷ ("readOnly", boolean)
        ∷ [])
      ("monitors" ∷ "image" ∷ []) (core "SecretReference" ∷ [])

abbrev pub rbd_volume_source_schema : Definition
rbd_volume_source_schema =
    object
      (("monitors", array text)
        ∷ ("image", text)
        ∷ ("fsType", text)
        ∷ ("pool", text)
        ∷ ("user", text)
        ∷ ("keyring", text)
        ∷ ("secretRef", ref (core "LocalObjectReference"))
        ∷ ("readOnly", boolean)
        ∷ [])
      ("monitors" ∷ "image" ∷ []) (core "LocalObjectReference" ∷ [])

abbrev pub range_allocation_schema : Definition
range_allocation_schema =
    object
      (("kind", text)
        ∷ ("apiVersion", text)
        ∷ ("metadata", ref (meta "ObjectMeta"))
        ∷ ("range", text)
        ∷ ("data", bytes)
        ∷ [])
      ("range" ∷ "data" ∷ []) (meta "ObjectMeta" ∷ [])

abbrev pub replication_controller_schema : Definition
replication_controller_schema =
    object
      (("kind", text)
        ∷ ("apiVersion", text)
        ∷ ("metadata", ref (meta "ObjectMeta"))
        ∷ ("spec", ref (core "ReplicationControllerSpec"))
        ∷ ("status", ref (core "ReplicationControllerStatus"))
        ∷ [])
      ([])
      (core "ReplicationControllerSpec"
        ∷ core "ReplicationControllerStatus"
        ∷ meta "ObjectMeta"
        ∷ [])

abbrev pub replication_controller_condition_schema : Definition
replication_controller_condition_schema =
    object
      (("type", text)
        ∷ ("status", text)
        ∷ ("lastTransitionTime", ref (meta "Time"))
        ∷ ("reason", text)
        ∷ ("message", text)
        ∷ [])
      ("type" ∷ "status" ∷ []) (meta "Time" ∷ [])

abbrev pub replication_controller_list_schema : Definition
replication_controller_list_schema =
    object
      (("kind", text)
        ∷ ("apiVersion", text)
        ∷ ("metadata", ref (meta "ListMeta"))
        ∷ ("items", array (ref (core "ReplicationController")))
        ∷ [])
      ("items" ∷ []) (core "ReplicationController" ∷ meta "ListMeta" ∷ [])

abbrev pub replication_controller_spec_schema : Definition
replication_controller_spec_schema =
    object
      (("replicas", int32)
        ∷ ("minReadySeconds", int32)
        ∷ ("selector", map_of text)
        ∷ ("template", ref (core "PodTemplateSpec"))
        ∷ [])
      ([]) (core "PodTemplateSpec" ∷ [])

abbrev pub replication_controller_status_schema : Definition
replication_controller_status_schema =
    object
      (("replicas", int32)
        ∷ ("fullyLabeledReplicas", int32)
        ∷ ("readyReplicas", int32)
        ∷ ("availableReplicas", int32)
        ∷ ("observedGeneration", int64)
        ∷ (
          "conditions",
          merged (some "type") "merge" (array (ref (core "ReplicationControllerCondition"))),
        )
        ∷ [])
      ("replicas" ∷ []) (core "ReplicationControllerCondition" ∷ [])

-- Their entries in `GetOpenAPIDefinitions`.
abbrev pub from_probe : List (String × Definition)
from_probe =
    (core "Probe", probe_schema)
    ∷ (core "ProjectedVolumeSource", projected_volume_source_schema)
    ∷ (core "QuobyteVolumeSource", quobyte_volume_source_schema)
    ∷ (core "RBDPersistentVolumeSource", rbd_persistent_volume_source_schema)
    ∷ (core "RBDVolumeSource", rbd_volume_source_schema)
    ∷ (core "RangeAllocation", range_allocation_schema)
    ∷ (core "ReplicationController", replication_controller_schema)
    ∷ (core "ReplicationControllerCondition", replication_controller_condition_schema)
    ∷ (core "ReplicationControllerList", replication_controller_list_schema)
    ∷ (core "ReplicationControllerSpec", replication_controller_spec_schema)
    ∷ (core "ReplicationControllerStatus", replication_controller_status_schema)
    ∷ []
