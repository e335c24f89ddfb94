-- ===== src/OpenApi/Core/FromVolumeSource.antt =====
-- pkg/apis/jupyter/v1/openapi_generated.go: the schemas of the core types from `VolumeSource` to `WeightedPodAffinityTerm`.
use jupyter_operator.Common.{String, List, [], ◌∷◌}
use jupyter_operator.OpenApi.Schema.{Definition, core, int32, object, ref, text}

abbrev pub volume_source_schema : Definition
volume_source_schema =
    object
      (("hostPath", ref (core "HostPathVolumeSource"))
        ∷ ("emptyDir", ref (core "EmptyDirVolumeSource"))
        ∷ ("gcePersistentDisk", ref (core "GCEPersistentDiskVolumeSource"))
        ∷ ("awsElasticBlockStore", ref (core "AWSElasticBlockStoreVolumeSource"))
        ∷ ("gitRepo", ref (core "GitRepoVolumeSource"))
        ∷ ("secret", ref (core "SecretVolumeSource"))
        ∷ ("nfs", ref (core "NFSVolumeSource"))
        ∷ ("iscsi", ref (core "ISCSIVolumeSource"))
        ∷ ("glusterfs", ref (core "GlusterfsVolumeSource"))
        ∷ ("persistentVolumeClaim", ref (core "PersistentVolumeClaimVolumeSource"))
        ∷ ("rbd", ref (core "RBDVolumeSource"))
        ∷ ("flexVolume", ref (core "FlexVolumeSource"))
        ∷ ("cinder", ref (core "CinderVolumeSource"))
        ∷ ("cephfs", ref (core "CephFSVolumeSource"))
        ∷ ("flocker", ref (core "FlockerVolumeSource"))
        ∷ ("downwardAPI", ref (core "DownwardAPIVolumeSource"))
        ∷ ("fc", ref (core "FCVolumeSource"))
        ∷ ("azureFile", ref (core "AzureFileVolumeSource"))
        ∷ ("configMap", ref (core "ConfigMapVolumeSource"))
        ∷ ("vsphereVolume", ref (core "VsphereVirtualDiskVolumeSource"))
        ∷ ("quobyte", ref (core "QuobyteVolumeSource"))
        ∷ ("azureDisk", ref (core "AzureDiskVolumeSource"))
        ∷ ("photonPersistentDisk", ref (core "PhotonPersistentDiskVolumeSource"))
        ∷ ("projected", ref (core "ProjectedVolumeSource"))
        ∷ ("portworxVolume", ref (core "PortworxVolumeSource"))
        ∷ ("scaleIO", ref (core "ScaleIOVolumeSource"))
        ∷ ("storageos", ref (core "StorageOSVolumeSource"))
        ∷ [])
      ([])
      (core "AWSElasticBlockStoreVolumeSource"
        ∷ core "AzureDiskVolumeSource"
        ∷ core "AzureFileVolumeSource"
        ∷ core "CephFSVolumeSource"
        ∷ core "CinderVolumeSource"
        ∷ core "ConfigMapVolumeSource"
        ∷ core "DownwardAPIVolumeSource"
        ∷ core "EmptyDirVolumeSource"
        ∷ core "FCVolumeSource"
        ∷ core "FlexVolumeSource"
        ∷ core "FlockerVolumeSource"
        ∷ core "GCEPersistentDiskVolumeSource"
        ∷ core "GitRepoVolumeSource"
        ∷ core "GlusterfsVolumeSource"
        ∷ core "HostPathVolumeSource"
        ∷ core "ISCSIVolumeSource"
        ∷ core "NFSVolumeSource"
        ∷ core "PersistentVolumeClaimVolumeSource"
        ∷ core "PhotonPersistentDiskVolumeSource"
        ∷ core "PortworxVolumeSource"
        ∷ core "ProjectedVolumeSource"
        ∷ core "QuobyteVolumeSource"
        ∷ core "RBDVolumeSource"
        ∷ core "ScaleIOVolumeSource"
        ∷ core "SecretVolumeSource"
        ∷ core "StorageOSVolumeSource"
        ∷ core "VsphereVirtualDiskVolumeSource"
        ∷ [])

abbrev pub vsphere_virtual_disk_volume_source_schema : Definition
vsphere_virtual_disk_volume_source_schema =
    object
      (("volumePath", text)
        ∷ ("fsType", text)
        ∷ ("storagePolicyName", text)
        ∷ ("storagePolicyID", text)
        ∷ [])
      ("volumePath" ∷ []) ([])

abbrev pub weighted_pod_affinity_term_schema : Definition
weighted_pod_affinity_term_schema =
    object (("weight", int32) ∷ ("podAffinityTerm", ref (core "PodAffinityTerm")) ∷ [])
      ("weight" ∷ "podAffinityTerm" ∷ []) (core "PodAffinityTerm" ∷ [])

-- Their entries in `GetOpenAPIDefinitions`.
abbrev pub from_volume_source : List (String × Definition)
from_volume_source =
    (core "VolumeSource", volume_source_schema)
    ∷ (core "VsphereVirtualDiskVolumeSource", vsphere_virtual_disk_volume_source_schema)
    ∷ (core "WeightedPodAffinityTerm", weighted_pod_affinity_term_schema)
    ∷ []
