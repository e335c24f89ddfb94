-- ===== src/OpenApi/Core/FromContainer.antt =====
-- pkg/apis/jupyter/v1/openapi_generated.go: the schemas of the core types from `Container` to `DownwardAPIVolumeSource`.
use jupyter_operator.Common.{String, List, [], ◌∷◌, some}
use jupyter_operator.OpenApi.Schema.{
  Definition, array, boolean, core, int32, int64, merged, meta, object, ref, text,
}

abbrev pub container_schema : Definition
container_schema =
    object
      (("name", text)
        ∷ ("image", text)
        ∷ ("command", array text)
        ∷ ("args", array text)
        ∷ ("workingDir", text)
        ∷ ("ports", merged (some "containerPort") "merge" (array (ref (core "ContainerPort"))))
        ∷ ("envFrom", array (ref (core "EnvFromSource")))
        ∷ ("env", merged (some "name") "merge" (array (ref (core "EnvVar"))))
        ∷ ("resources", ref (core "ResourceRequirements"))
        ∷ ("volumeMounts", merged (some "mountPath") "merge" (array (ref (core "VolumeMount"))))
        ∷ ("volumeDevices", merged (some "devicePath") "merge" (array (ref (core "VolumeDevice"))))
        ∷ ("livenessProbe", ref (core "Probe"))
        ∷ ("readinessProbe", ref (core "Probe"))
        ∷ ("lifecycle", ref (core "Lifecycle"))
        ∷ ("terminationMessagePath", text)
        ∷ ("terminationMessagePolicy", text)
        ∷ ("imagePullPolicy", text)
        ∷ ("securityContext", ref (core "SecurityContext"))
        ∷ ("stdin", boolean)
        ∷ ("stdinOnce", boolean)
        ∷ ("tty", boolean)
        ∷ [])
      ("name" ∷ [])
      (core "ContainerPort"
        ∷ core "EnvFromSource"
        ∷ core "EnvVar"
        ∷ core "Lifecycle"
        ∷ core "Probe"
        ∷ core "ResourceRequirements"
        ∷ core "SecurityContext"
        ∷ core "VolumeDevice"
        ∷ core "VolumeMount"
        ∷ [])

abbrev pub container_image_schema : Definition
container_image_schema =
    object (("names", array text) ∷ ("sizeBytes", int64) ∷ []) ("names" ∷ []) ([])

abbrev pub container_port_schema : Definition
container_port_schema =
    object
      (("name", text)
        ∷ ("hostPort", int32)
        ∷ ("containerPort", int32)
        ∷ ("protocol", text)
        ∷ ("hostIP", text)
        ∷ [])
      ("containerPort" ∷ []) ([])

abbrev pub container_state_schema : Definition
container_state_schema =
    object
      (("waiting", ref (core "ContainerStateWaiting"))
        ∷ ("running", ref (core "ContainerStateRunning"))
        ∷ ("terminated", ref (core "ContainerStateTerminated"))
        ∷ [])
      ([])
      (core "ContainerStateRunning"
        ∷ core "ContainerStateTerminated"
        ∷ core "ContainerStateWaiting"
        ∷ [])

abbrev pub container_state_running_schema : Definition
container_state_running_schema =
    object (("startedAt", ref (meta "Time")) ∷ []) ([]) (meta "Time" ∷ [])

abbrev pub container_state_terminated_schema : Definition
container_state_terminated_schema =
    object
      (("exitCode", int32)
        ∷ ("signal", int32)
        ∷ ("reason", text)
        ∷ ("message", text)
        ∷ ("startedAt", ref (meta "Time"))
        ∷ ("finishedAt", ref (meta "Time"))
        ∷ ("containerID", text)
        ∷ [])
      ("exitCode" ∷ []) (meta "Time" ∷ [])

abbrev pub container_state_waiting_schema : Definition
container_state_waiting_schema = object (("reason", text) ∷ ("message", text) ∷ []) ([]) ([])

abbrev pub container_status_schema : Definition
container_status_schema =
    object
      (("name", text)
        ∷ ("state", ref (core "ContainerState"))
        ∷ ("lastState", ref (core "ContainerState"))
        ∷ ("ready", boolean)
        ∷ ("restartCount", int32)
        ∷ ("image", text)
        ∷ ("imageID", text)
        ∷ ("containerID", text)
        ∷ [])
      ("name" ∷ "ready" ∷ "restartCount" ∷ "image" ∷ "imageID" ∷ []) (core "ContainerState" ∷ [])

abbrev pub daemon_endpoint_schema : Definition
daemon_endpoint_schema = object (("Port", int32) ∷ []) ("Port" ∷ []) ([])

abbrev pub downward_api_projection_schema : Definition
downward_api_projection_schema =
    object (("items", array (ref (core "DownwardAPIVolumeFile"))) ∷ []) ([])
      (core "DownwardAPIVolumeFile" ∷ [])

abbrev pub downward_api_volume_file_schema : Definition
downward_api_volume_file_schema =
    object
      (("path", text)
        ∷ ("fieldRef", ref (core "ObjectFieldSelector"))
        ∷ ("resourceFieldRef", ref (core "ResourceFieldSelector"))
        ∷ ("mode", int32)
        ∷ [])
      ("path" ∷ []) (core "ObjectFieldSelector" ∷ core "ResourceFieldSelector" ∷ [])

abbrev pub downward_api_volume_source_schema : Definition
downward_api_volume_source_schema =
    object (("items", array (ref (core "DownwardAPIVolumeFile"))) ∷ ("defaultMode", int32) ∷ [])
      ([]) (core "DownwardAPIVolumeFile" ∷ [])

-- Their entries in `GetOpenAPIDefinitions`.
abbrev pub from_container : List (String × Definition)
from_container =
    (core "Container", container_schema)
    ∷ (core "ContainerImage", container_image_schema)
    ∷ (core "ContainerPort", container_port_schema)
    ∷ (core "ContainerState", container_state_schema)
    ∷ (core "ContainerStateRunning", container_state_running_schema)
    ∷ (core "ContainerStateTerminated", container_state_terminated_schema)
    ∷ (core "ContainerStateWaiting", container_state_waiting_schema)
    ∷ (core "ContainerStatus", container_status_schema)
    ∷ (core "DaemonEndpoint", daemon_endpoint_schema)
    ∷ (core "DownwardAPIProjection", downward_api_projection_schema)
    ∷ (core "DownwardAPIVolumeFile", downward_api_volume_file_schema)
    ∷ (core "DownwardAPIVolumeSource", downward_api_volume_source_schema)
    ∷ []
