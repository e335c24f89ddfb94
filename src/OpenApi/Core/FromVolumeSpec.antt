-- ===== src/OpenApi/Core/FromVolumeSpec.antt =====
-- pkg/apis/jupyter/v1/openapi_generated.go: the schemas of the core types from `PersistentVolumeSpec` to `PodCondition`.
use jupyter_operator.Common.{String, List, [], ◌∷◌}
use jupyter_operator.OpenApi.Schema.{
  Definition, array, boolean, core, map_of, meta, object, ref, text,
}

abbrev pub persistent_volume_spec_schema : Definition
persistent_volume_spec_schema =
    object
      (("capacity", map_of (ref "k8s.io/apimachinery/pkg/api/resource.Quantity"))
        ∷ ("gcePersistentDisk", ref (core "GCEPersistentDiskVolumeSource"))
        ∷ ("awsElasticBlockStore", ref (core "AWSElasticBlockStoreVolumeSource"))
        ∷ ("hostPath", ref (core "HostPathVolumeSource"))
        ∷ ("glusterfs", ref (core "GlusterfsVolumeSource"))
        ∷ ("nfs", ref (core "NFSVolumeSource"))
        ∷ ("rbd", ref (core "RBDPersistentVolumeSource"))
        ∷ ("iscsi", ref (core "ISCSIPersistentVolumeSource"))
        ∷ ("cinder", ref (core "CinderPersistentVolumeSource"))
        ∷ ("cephfs", ref (core "CephFSPersistentVolumeSource"))
        ∷ ("fc", ref (core "FCVolumeSource"))
        ∷ ("flocker", ref (core "FlockerVolumeSource"))
        ∷ ("flexVolume", ref (core "FlexPersistentVolumeSource"))
        ∷ ("azureFile", ref (core "AzureFilePersistentVolumeSource"))
        ∷ ("vsphereVolume", ref (core "VsphereVirtualDiskVolumeSource"))
        ∷ ("quobyte", ref (core "QuobyteVolumeSource"))
        ∷ ("azureDisk", ref (core "AzureDiskVolumeSource"))
        ∷ ("photonPersistentDisk", ref (core "PhotonPersistentDiskVolumeSource"))
        ∷ ("portworxVolume", ref (core "PortworxVolumeSource"))
        ∷ ("scaleIO", ref (core "ScaleIOPersistentVolumeSource"))
        ∷ ("local", ref (core "LocalVolumeSource"))
        ∷ ("storageos", ref (core "StorageOSPersistentVolumeSource"))
        ∷ ("csi", ref (core "CSIPersistentVolumeSource"))
        ∷ ("accessModes", array text)
        ∷ ("claimRef", ref (core "ObjectReference"))
        ∷ ("persistentVolumeReclaimPolicy", text)
        ∷ ("storageClassName", text)
        ∷ ("mountOptions", array text)
        ∷ ("volumeMode", text)
        ∷ ("nodeAffinity", ref (core "VolumeNodeAffinity"))
        ∷ [])
      ([])
      (core "AWSElasticBlockStoreVolumeSource"
        ∷ core "AzureDiskVolumeSource"
        ∷ core "AzureFilePersistentVolumeSource"
        ∷ core "CSIPersistentVolumeSource"
        ∷ core "CephFSPersistentVolumeSource"
        ∷ core "CinderPersistentVolumeSource"
        ∷ core "FCVolumeSource"
        ∷ core "FlexPersistentVolumeSource"
        ∷ core "FlockerVolumeSource"
        ∷ core "GCEPersistentDiskVolumeSource"
        ∷ core "GlusterfsVolumeSource"
        ∷ core "HostPathVolumeSource"
        ∷ core "ISCSIPersistentVolumeSource"
        ∷ core "LocalVolumeSource"
        ∷ core "NFSVolumeSource"
        ∷ core "ObjectReference"
        ∷ core "PhotonPersistentDiskVolumeSource"
        ∷ core "PortworxVolumeSource"
        ∷ core "QuobyteVolumeSource"
        ∷ core "RBDPersistentVolumeSource"
        ∷ core "ScaleIOPersistentVolumeSource"
        ∷ core "StorageOSPersistentVolumeSource"
        ∷ core "VolumeNodeAffinity"
        ∷ core "VsphereVirtualDiskVolumeSource"
        ∷ "k8s.io/apimachinery/pkg/api/resource.Quantity"
        ∷ [])

abbrev pub persistent_volume_status_schema : Definition
persistent_volume_status_schema =
    object (("phase", text) ∷ ("message", text) ∷ ("reason", text) ∷ []) ([]) ([])

abbrev pub photon_persistent_disk_volume_source_schema : Definition
photon_persistent_disk_volume_source_schema =
    object (("pdID", text) ∷ ("fsType", text) ∷ []) ("pdID" ∷ []) ([])

abbrev pub pod_schema : Definition
pod_schema =
    object
      (("kind", text)
        ∷ ("apiVersion", text)
        ∷ ("metadata", ref (meta "ObjectMeta"))
        ∷ ("spec", ref (core "PodSpec"))
        ∷ ("status", ref (core "PodStatus"))
        ∷ [])
      ([]) (core "PodSpec" ∷ core "PodStatus" ∷ meta "ObjectMeta" ∷ [])

abbrev pub pod_affinity_schema : Definition
pod_affinity_schema =
    object
      (("requiredDuringSchedulingIgnoredDuringExecution", array (ref (core "PodAffinityTerm")))
        ∷ (
          "preferredDuringSchedulingIgnoredDuringExecution",
          array (ref (core "WeightedPodAffinityTerm")),
        )
        ∷ [])
      ([]) (core "PodAffinityTerm" ∷ core "WeightedPodAffinityTerm" ∷ [])

abbrev pub pod_affinity_term_schema : Definition
pod_affinity_term_schema =
    object
      (("labelSelector", ref (meta "LabelSelector"))
        ∷ ("namespaces", array text)
        ∷ ("topologyKey", text)
        ∷ [])
      ("topologyKey" ∷ []) (meta "LabelSelector" ∷ [])

abbrev pub pod_anti_affinity_schema : Definition
pod_anti_affinity_schema =
    object
      (("requiredDuringSchedulingIgnoredDuringExecution", array (ref (core "PodAffinityTerm")))
        ∷ (
          "preferredDuringSchedulingIgnoredDuringExecution",
          array (ref (core "WeightedPodAffinityTerm")),
        )
        ∷ [])
      ([]) (core "PodAffinityTerm" ∷ core "WeightedPodAffinityTerm" ∷ [])

abbrev pub pod_attach_options_schema : Definition
pod_attach_options_schema =
    object
      (("kind", text)
        ∷ ("apiVersion", text)
        ∷ ("stdin", boolean)
        ∷ ("stdout", boolean)
        ∷ ("stderr", boolean)
        ∷ ("tty", boolean)
        ∷ ("container", text)
        ∷ [])
      ([]) ([])

abbrev pub pod_condition_schema : Definition
pod_condition_schema =
    object
      (("type", text)
        ∷ ("status", text)
        ∷ ("lastProbeTime", ref (meta "Time"))
        ∷ ("lastTransitionTime", ref (meta "Time"))
        ∷ ("reason", text)
        ∷ ("message", text)
        ∷ [])
      ("type" ∷ "status" ∷ []) (meta "Time" ∷ [])

-- Their entries in `GetOpenAPIDefinitions`.
abbrev pub from_volume_spec : List (String × Definition)
from_volume_spec =
    (core "PersistentVolumeSpec", persistent_volume_spec_schema)
    ∷ (core "PersistentVolumeStatus", persistent_volume_status_schema)
    ∷ (core "PhotonPersistentDiskVolumeSource", photon_persistent_disk_volume_source_schema)
    ∷ (core "Pod", pod_schema)
    ∷ (core "PodAffinity", pod_affinity_schema)
    ∷ (core "PodAffinityTerm", pod_affinity_term_schema)
    ∷ (core "PodAntiAffinity", pod_anti_affinity_schema)
    ∷ (core "PodAttachOptions", pod_attach_options_schema)
    ∷ (core "PodCondition", pod_condition_schema)
    ∷ []
