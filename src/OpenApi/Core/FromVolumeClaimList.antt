-- ===== src/OpenApi/Core/FromVolumeClaimList.antt =====
-- pkg/apis/jupyter/v1/openapi_generated.go: the schemas of the core types from `PersistentVolumeClaimList` to `PersistentVolumeSource`.
use jupyter_operator.Common.{String, List, [], ◌∷◌, some}
use jupyter_operator.OpenApi.Schema.{
  Definition, array, boolean, core, map_of, merged, meta, object, ref, text,
}

abbrev pub persistent_volume_claim_list_schema : Definition
persistent_volume_claim_list_schema =
    object
      (("kind", text)
        ∷ ("apiVersion", text)
        ∷ ("metadata", ref (meta "ListMeta"))
        ∷ ("items", array (ref (core "PersistentVolumeClaim")))
        ∷ [])
      ("items" ∷ []) (core "PersistentVolumeClaim" ∷ meta "ListMeta" ∷ [])

abbrev pub persistent_volume_claim_spec_schema : Definition
persistent_volume_claim_spec_schema =
    object
      (("accessModes", array text)
        ∷ ("selector", ref (meta "LabelSelector"))
        ∷ ("resources", ref (core "ResourceRequirements"))
        ∷ ("volumeName", text)
        ∷ ("storageClassName", text)
        ∷ ("volumeMode", text)
        ∷ ("dataSource", ref (core "TypedLocalObjectReference"))
        ∷ [])
      ([])
      (core "ResourceRequirements" ∷ core "TypedLocalObjectReference" ∷ meta "LabelSelector" ∷ [])

abbrev pub persistent_volume_claim_status_schema : Definition
persistent_volume_claim_status_schema =
    object
      (("phase", text)
        ∷ ("accessModes", array text)
        ∷ ("capacity", map_of (ref "k8s.io/apimachinery/pkg/api/resource.Quantity"))
        ∷ (
          "conditions",
          merged (some "type") "merge" (array (ref (core "PersistentVolumeClaimCondition"))),
        )
        ∷ [])
      ([])
      (core "PersistentVolumeClaimCondition" ∷ "k8s.io/apimachinery/pkg/api/resource.Quantity" ∷ [])

abbrev pub persistent_volume_claim_volume_source_schema : Definition
persistent_volume_claim_volume_source_schema =
    object (("claimName", text) ∷ ("readOnly", boolean) ∷ []) ("claimName" ∷ []) ([])

abbrev pub persistent_volume_list_schema : Definition
persistent_volume_list_schema =
    object
      (("kind", text)
        ∷ ("apiVersion", text)
        ∷ ("metadata", ref (meta "ListMeta"))
        ∷ ("items", array (ref (core "PersistentVolume")))
        ∷ [])
      ("items" ∷ []) (core "PersistentVolume" ∷ meta "ListMeta" ∷ [])

abbrev pub persistent_volume_source_schema : Definition
persistent_volume_source_schema =
    object
      (("gcePersistentDisk", ref (core "GCEPersistentDiskVolumeSource"))
        ∷ ("awsElasticBlockStore", ref (core "AWSElasticBlockStoreVolumeSource"))
        ∷ ("hostPath", ref (core "HostPathVolumeSource"))
        ∷ ("glusterfs", ref (core "GlusterfsVolumeSource"))
        ∷ ("nfs", ref (core "NFSVolumeSource"))
        ∷ ("rbd", ref (core "RBDPersistentVolumeSource"))
        ∷ ("iscsi", ref (core "ISCSIPersistentVolumeSource"))
        ∷ ("cinder", ref (core "CinderPersistentVolumeSource"))
        ∷ ("cephfs", ref (core "CephFSPersistentVolumeSource"))
        ∷ ("fc", ref (core "FCVolumeSource"))
        ∷ ("flocker", ref (core "FlockerVolumeSource"))
        ∷ ("flexVolume", ref (core "FlexPersistentVolumeSource"))
        ∷ ("azureFile", ref (core "AzureFilePersistentVolumeSource"))
        ∷ ("vsphereVolume", ref (core "VsphereVirtualDiskVolumeSource"))
        ∷ ("quobyte", ref (core "QuobyteVolumeSource"))
        ∷ ("azureDisk", ref (core "AzureDiskVolumeSource"))
        ∷ ("photonPersistentDisk", ref (core "PhotonPersistentDiskVolumeSource"))
        ∷ ("portworxVolume", ref (core "PortworxVolumeSource"))
        ∷ ("scaleIO", ref (core "ScaleIOPersistentVolumeSource"))
        ∷ ("local", ref (core "LocalVolumeSource"))
        ∷ ("storageos", ref (core "StorageOSPersistentVolumeSource"))
        ∷ ("csi", ref (core "CSIPersistentVolumeSource"))
        ∷ [])
      ([])
      (core "AWSElasticBlockStoreVolumeSource"
        ∷ core "AzureDiskVolumeSource"
        ∷ core "AzureFilePersistentVolumeSource"
        ∷ core "CSIPersistentVolumeSource"
        ∷ core "CephFSPersistentVolumeSource"
        ∷ core "CinderPersistentVolumeSource"
        ∷ core "FCVolumeSource"
        ∷ core "FlexPersistentVolumeSource"
        ∷ core "FlockerVolumeSource"
        ∷ core "GCEPersistentDiskVolumeSource"
        ∷ core "GlusterfsVolumeSource"
        ∷ core "HostPathVolumeSource"
        ∷ core "ISCSIPersistentVolumeSource"
        ∷ core "LocalVolumeSource"
        ∷ core "NFSVolumeSource"
        ∷ core "PhotonPersistentDiskVolumeSource"
        ∷ core "PortworxVolumeSource"
        ∷ core "QuobyteVolumeSource"
        ∷ core "RBDPersistentVolumeSource"
        ∷ core "ScaleIOPersistentVolumeSource"
        ∷ core "StorageOSPersistentVolumeSource"
        ∷ core "VsphereVirtualDiskVolumeSource"
        ∷ [])

-- Their entries in `GetOpenAPIDefinitions`.
abbrev pub from_volume_claim_list : List (String × Definition)
from_volume_claim_list =
    (core "PersistentVolumeClaimList", persistent_volume_claim_list_schema)
    ∷ (core "PersistentVolumeClaimSpec", persistent_volume_claim_spec_schema)
    ∷ (core "PersistentVolumeClaimStatus", persistent_volume_claim_status_schema)
    ∷ (core "PersistentVolumeClaimVolumeSource", persistent_volume_claim_volume_source_schema)
    ∷ (core "PersistentVolumeList", persistent_volume_list_schema)
    ∷ (core "PersistentVolumeSource", persistent_volume_source_schema)
    ∷ []
