-- ===== src/OpenApi/Core/FromEventSource.antt =====
-- pkg/apis/jupyter/v1/openapi_generated.go: the schemas of the core types from `EventSource` to `HostPathVolumeSource`.
use jupyter_operator.Common.{String, List, [], ◌∷◌}
use jupyter_operator.OpenApi.Schema.{
  Definition, array, boolean, core, int32, map_of, object, ref, text,
}

abbrev pub event_source_schema : Definition
event_source_schema = object (("component", text) ∷ ("host", text) ∷ []) ([]) ([])

abbrev pub exec_action_schema : Definition
exec_action_schema = object (("command", array text) ∷ []) ([]) ([])

abbrev pub fc_volume_source_schema : Definition
fc_volume_source_schema =
    object
      (("targetWWNs", array text)
        ∷ ("lun", int32)
        ∷ ("fsType", text)
        ∷ ("readOnly", boolean)
        ∷ ("wwids", array text)
        ∷ [])
      ([]) ([])

abbrev pub flex_persistent_volume_source_schema : Definition
flex_persistent_volume_source_schema =
    object
      (("driver", text)
        ∷ ("fsType", text)
        ∷ ("secretRef", ref (core "SecretReference"))
        ∷ ("readOnly", boolean)
        ∷ ("options", map_of text)
        ∷ [])
      ("driver" ∷ []) (core "SecretReference" ∷ [])

abbrev pub flex_volume_source_schema : Definition
flex_volume_source_schema =
    object
      (("driver", text)
        ∷ ("fsType", text)
        ∷ ("secretRef", ref (core "LocalObjectReference"))
        ∷ ("readOnly", boolean)
        ∷ ("options", map_of text)
        ∷ [])
      ("driver" ∷ []) (core "LocalObjectReference" ∷ [])

abbrev pub flocker_volume_source_schema : Definition
flocker_volume_source_schema = object (("datasetName", text) ∷ ("datasetUUID", text) ∷ []) ([]) ([])

abbrev pub gce_persistent_disk_volume_source_schema : Definition
gce_persistent_disk_volume_source_schema =
    object (("pdName", text) ∷ ("fsType", text) ∷ ("partition", int32) ∷ ("readOnly", boolean) ∷ [])
      ("pdName" ∷ []) ([])

abbrev pub git_repo_volume_source_schema : Definition
git_repo_volume_source_schema =
    object (("repository", text) ∷ ("revision", text) ∷ ("directory", text) ∷ [])
      ("repository" ∷ []) ([])

abbrev pub glusterfs_volume_source_schema : Definition
glusterfs_volume_source_schema =
    object (("endpoints", text) ∷ ("path", text) ∷ ("readOnly", boolean) ∷ [])
      ("endpoints" ∷ "path" ∷ []) ([])

abbrev pub http_get_action_schema : Definition
http_get_action_schema =
    object
      (("path", text)
        ∷ ("port", ref "k8s.io/apimachinery/pkg/util/intstr.IntOrString")
        ∷ ("host", text)
        ∷ ("scheme", text)
        ∷ ("httpHeaders", array (ref (core "HTTPHeader")))
        ∷ [])
      ("port" ∷ []) (core "HTTPHeader" ∷ "k8s.io/apimachinery/pkg/util/intstr.IntOrString" ∷ [])

abbrev pub http_header_schema : Definition
http_header_schema = object (("name", text) ∷ ("value", text) ∷ []) ("name" ∷ "value" ∷ []) ([])

abbrev pub handler_schema : Definition
handler_schema =
    object
      (("exec", ref (core "ExecAction"))
        ∷ ("httpGet", ref (core "HTTPGetAction"))
        ∷ ("tcpSocket", ref (core "TCPSocketAction"))
        ∷ [])
      ([]) (core "ExecAction" ∷ core "HTTPGetAction" ∷ core "TCPSocketAction" ∷ [])

abbrev pub host_alias_schema : Definition
host_alias_schema = object (("ip", text) ∷ ("hostnames", array text) ∷ []) ([]) ([])

abbrev pub host_path_volume_source_schema : Definition
host_path_volume_source_schema = object (("path", text) ∷ ("type", text) ∷ []) ("path" ∷ []) ([])

-- Their entries in `GetOpenAPIDefinitions`.
abbrev pub from_event_source : List (String × Definition)
from_event_source =
    (core "EventSource", event_source_schema)
    ∷ (core "ExecAction", exec_action_schema)
    ∷ (core "FCVolumeSource", fc_volume_source_schema)
    ∷ (core "FlexPersistentVolumeSource", flex_persistent_volume_source_schema)
    ∷ (core "FlexVolumeSource", flex_volume_source_schema)
    ∷ (core "FlockerVolumeSource", flocker_volume_source_schema)
    ∷ (core "GCEPersistentDiskVolumeSource", gce_persistent_disk_volume_source_schema)
    ∷ (core "GitRepoVolumeSource", git_repo_volume_source_schema)
    ∷ (core "GlusterfsVolumeSource", glusterfs_volume_source_schema)
    ∷ (core "HTTPGetAction", http_get_action_schema)
    ∷ (core "HTTPHeader", http_header_schema)
    ∷ (core "Handler", handler_schema)
    ∷ (core "HostAlias", host_alias_schema)
    ∷ (core "HostPathVolumeSource", host_path_volume_source_schema)
    ∷ []
