-- ===== src/OpenApi/Core/FromAws.antt =====
-- pkg/apis/jupyter/v1/openapi_generated.go: the schemas of the core types from `AWSElasticBlockStoreVolumeSource` to `CinderPersistentVolumeSource`.
use jupyter_operator.Common.{String, List, [], ◌∷◌}
use jupyter_operator.OpenApi.Schema.{
  Definition, array, boolean, core, int32, map_of, meta, object, ref, text,
}

abbrev pub aws_elastic_block_store_volume_source_schema : Definition
aws_elastic_block_store_volume_source_schema =
    object
      (("volumeID", text) ∷ ("fsType", text) ∷ ("partition", int32) ∷ ("readOnly", boolean) ∷ [])
      ("volumeID" ∷ []) ([])

abbrev pub affinity_schema : Definition
affinity_schema =
    object
      (("nodeAffinity", ref (core "NodeAffinity"))
        ∷ ("podAffinity", ref (core "PodAffinity"))
        ∷ ("podAntiAffinity", ref (core "PodAntiAffinity"))
        ∷ [])
      ([]) (core "NodeAffinity" ∷ core "PodAffinity" ∷ core "PodAntiAffinity" ∷ [])

abbrev pub attached_volume_schema : Definition
attached_volume_schema =
    object (("name", text) ∷ ("devicePath", text) ∷ []) ("name" ∷ "devicePath" ∷ []) ([])

abbrev pub avoid_pods_schema : Definition
avoid_pods_schema =
    object (("preferAvoidPods", array (ref (core "PreferAvoidPodsEntry"))) ∷ []) ([])
      (core "PreferAvoidPodsEntry" ∷ [])

abbrev pub azure_disk_volume_source_schema : Definition
azure_disk_volume_source_schema =
    object
      (("diskName", text)
        ∷ ("diskURI", text)
        ∷ ("cachingMode", text)
        ∷ ("fsType", text)
        ∷ ("readOnly", boolean)
        ∷ ("kind", text)
        ∷ [])
      ("diskName" ∷ "diskURI" ∷ []) ([])

abbrev pub azure_file_persistent_volume_source_schema : Definition
azure_file_persistent_volume_source_schema =
    object
      (("secretName", text)
        ∷ ("shareName", text)
        ∷ ("readOnly", boolean)
        ∷ ("secretNamespace", text)
        ∷ [])
      ("secretName" ∷ "shareName" ∷ []) ([])

abbrev pub azure_file_volume_source_schema : Definition
azure_file_volume_source_schema =
    object (("secretName", text) ∷ ("shareName", text) ∷ ("readOnly", boolean) ∷ [])
      ("secretName" ∷ "shareName" ∷ []) ([])

abbrev pub binding_schema : Definition
binding_schema =
    object
      (("kind", text)
        ∷ ("apiVersion", text)
        ∷ ("metadata", ref (meta "ObjectMeta"))
        ∷ ("target", ref (core "ObjectReference"))
        ∷ [])
      ("target" ∷ []) (core "ObjectReference" ∷ meta "ObjectMeta" ∷ [])

abbrev pub csi_persistent_volume_source_schema : Definition
csi_persistent_volume_source_schema =
    object
      (("driver", text)
        ∷ ("volumeHandle", text)
        ∷ ("readOnly", boolean)
        ∷ ("fsType", text)
        ∷ ("volumeAttributes", map_of text)
        ∷ ("controllerPublishSecretRef", ref (core "SecretReference"))
        ∷ ("nodeStageSecretRef", ref (core "SecretReference"))
        ∷ ("nodePublishSecretRef", ref (core "SecretReference"))
        ∷ [])
      ("driver" ∷ "volumeHandle" ∷ []) (core "SecretReference" ∷ [])

abbrev pub capabilities_schema : Definition
capabilities_schema = object (("add", array text) ∷ ("drop", array text) ∷ []) ([]) ([])

abbrev pub ceph_fs_persistent_volume_source_schema : Definition
ceph_fs_persistent_volume_source_schema =
    object
      (("monitors", array text)
        ∷ ("path", text)
        ∷ ("user", text)
        ∷ ("secretFile", text)
        ∷ ("secretRef", ref (core "SecretReference"))
        ∷ ("readOnly", boolean)
        ∷ [])
      ("monitors" ∷ []) (core "SecretReference" ∷ [])

abbrev pub ceph_fs_volume_source_schema : Definition
ceph_fs_volume_source_schema =
    object
      (("monitors", array text)
        ∷ ("path", text)
        ∷ ("user", text)
        ∷ ("secretFile", text)
        ∷ ("secretRef", ref (core "LocalObjectReference"))
        ∷ ("readOnly", boolean)
        ∷ [])
      ("monitors" ∷ []) (core "LocalObjectReference" ∷ [])

abbrev pub cinder_persistent_volume_source_schema : Definition
cinder_persistent_volume_source_schema =
    object
      (("volumeID", text)
        ∷ ("fsType", text)
        ∷ ("readOnly", boolean)
        ∷ ("secretRef", ref (core "SecretReference"))
        ∷ [])
      ("volumeID" ∷ []) (core "SecretReference" ∷ [])

-- Their entries in `GetOpenAPIDefinitions`.
abbrev pub from_aws : List (String × Definition)
from_aws =
    (core "AWSElasticBlockStoreVolumeSource", aws_elastic_block_store_volume_source_schema)
    ∷ (core "Affinity", affinity_schema)
    ∷ (core "AttachedVolume", attached_volume_schema)
    ∷ (core "AvoidPods", avoid_pods_schema)
    ∷ (core "AzureDiskVolumeSource", azure_disk_volume_source_schema)
    ∷ (core "AzureFilePersistentVolumeSource", azure_file_persistent_volume_source_schema)
    ∷ (core "AzureFileVolumeSource", azure_file_volume_source_schema)
    ∷ (core "Binding", binding_schema)
    ∷ (core "CSIPersistentVolumeSource", csi_persistent_volume_source_schema)
    ∷ (core "Capabilities", capabilities_schema)
    ∷ (core "CephFSPersistentVolumeSource", ceph_fs_persistent_volume_source_schema)
    ∷ (core "CephFSVolumeSource", ceph_fs_volume_source_schema)
    ∷ (core "CinderPersistentVolumeSource", cinder_persistent_volume_source_schema)
    ∷ []
