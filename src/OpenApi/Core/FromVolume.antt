-- ===== src/OpenApi/Core/FromVolume.antt =====
-- pkg/apis/jupyter/v1/openapi_generated.go: the schemas of the core types from `Volume` to `VolumeProjection`.
use jupyter_operator.Common.{String, List, [], ◌∷◌}
use jupyter_operator.OpenApi.Schema.{Definition, boolean, core, object, ref, text}

abbrev pub volume_schema : Definition
volume_schema =
    object
      (("name", text)
        ∷ ("hostPath", ref (core "HostPathVolumeSource"))
        ∷ ("emptyDir", ref (core "EmptyDirVolumeSource"))
        ∷ ("gcePersistentDisk", ref (core "GCEPersistentDiskVolumeSource"))
        ∷ ("awsElasticBlockStore", ref (core "AWSElasticBlockStoreVolumeSource"))
        ∷ ("gitRepo", ref (core "GitRepoVolumeSource"))
        ∷ ("secret", ref (core "SecretVolumeSource"))
        ∷ ("nfs", ref (core "NFSVolumeSource"))
        ∷ ("iscsi", ref (core "ISCSIVolumeSource"))
        ∷ ("glusterfs", ref (core "GlusterfsVolumeSource"))
        ∷ ("persistentVolumeClaim", ref (core "PersistentVolumeClaimVolumeSource"))
        ∷ ("rbd", ref (core "RBDVolumeSource"))
        ∷ ("flexVolume", ref (core "FlexVolumeSource"))
        ∷ ("cinder", ref (core "CinderVolumeSource"))
        ∷ ("cephfs", ref (core "CephFSVolumeSource"))
        ∷ ("flocker", ref (core "FlockerVolumeSource"))
        ∷ ("downwardAPI", ref (core "DownwardAPIVolumeSource"))
        ∷ ("fc", ref (core "FCVolumeSource"))
        ∷ ("azureFile", ref (core "AzureFileVolumeSource"))
        ∷ ("configMap", ref (core "ConfigMapVolumeSource"))
        ∷ ("vsphereVolume", ref (core "VsphereVirtualDiskVolumeSource"))
        ∷ ("quobyte", ref (core "QuobyteVolumeSource"))
        ∷ ("azureDisk", ref (core "AzureDiskVolumeSource"))
        ∷ ("photonPersistentDisk", ref (core "PhotonPersistentDiskVolumeSource"))
        ∷ ("projected", ref (core "ProjectedVolumeSource"))
        ∷ ("portworxVolume", ref (core "PortworxVolumeSource"))
        ∷ ("scaleIO", ref (core "ScaleIOVolumeSource"))
        ∷ ("storageos", ref (core "StorageOSVolumeSource"))
        ∷ [])
      ("name" ∷ [])
      (core "AWSElasticBlockStoreVolumeSource"
        ∷ core "AzureDiskVolumeSource"
        ∷ core "AzureFileVolumeSource"
        ∷ core "CephFSVolumeSource"
        ∷ core "CinderVolumeSource"
        ∷ core "ConfigMapVolumeSource"
        ∷ core "DownwardAPIVolumeSource"
        ∷ core "EmptyDirVolumeSource"
        ∷ core "FCVolumeSource"
        ∷ core "FlexVolumeSource"
        ∷ core "FlockerVolumeSource"
        ∷ core "GCEPersistentDiskVolumeSource"
        ∷ core "GitRepoVolumeSource"
        ∷ core "GlusterfsVolumeSource"
        ∷ core "HostPathVolumeSource"
        ∷ core "ISCSIVolumeSource"
        ∷ core "NFSVolumeSource"
        ∷ core "PersistentVolumeClaimVolumeSource"
        ∷ core "PhotonPersistentDiskVolumeSource"
        ∷ core "PortworxVolumeSource"
        ∷ core "ProjectedVolumeSource"
        ∷ core "QuobyteVolumeSource"
        ∷ core "RBDVolumeSource"
        ∷ core "ScaleIOVolumeSource"
        ∷ core "SecretVolumeSource"
        ∷ core "StorageOSVolumeSource"
        ∷ core "VsphereVirtualDiskVolumeSource"
        ∷ [])

abbrev pub volume_device_schema : Definition
volume_device_schema =
    object (("name", text) ∷ ("devicePath", text) ∷ []) ("name" ∷ "devicePath" ∷ []) ([])

abbrev pub volume_mount_schema : Definition
volume_mount_schema =
    object
      (("name", text)
        ∷ ("readOnly", boolean)
        ∷ ("mountPath", text)
        ∷ ("subPath", text)
        ∷ ("mountPropagation", text)
        ∷ [])
      ("name" ∷ "mountPath" ∷ []) ([])

abbrev pub volume_node_affinity_schema : Definition
volume_node_affinity_schema =
    object (("required", ref (core "NodeSelector")) ∷ []) ([]) (core "NodeSelector" ∷ [])

abbrev pub volume_projection_schema : Definition
volume_projection_schema =
    object
      (("secret", ref (core "SecretProjection"))
        ∷ ("downwardAPI", ref (core "DownwardAPIProjection"))
        ∷ ("configMap", ref (core "ConfigMapProjection"))
        ∷ ("serviceAccountToken", ref (core "ServiceAccountTokenProjection"))
        ∷ [])
      ([])
      (core "ConfigMapProjection"
        ∷ core "DownwardAPIProjection"
        ∷ core "SecretProjection"
        ∷ core "ServiceAccountTokenProjection"
        ∷ [])

-- Their entries in `GetOpenAPIDefinitions`.
abbrev pub from_volume : List (String × Definition)
from_volume =
    (core "Volume", volume_schema)
    ∷ (core "VolumeDevice", volume_device_schema)
    ∷ (core "VolumeMount", volume_mount_schema)
    ∷ (core "VolumeNodeAffinity", volume_node_affinity_schema)
    ∷ (core "VolumeProjection", volume_projection_schema)
    ∷ []
