-- ===== src/OpenApi/Core/FromIscsi.antt =====
-- pkg/apis/jupyter/v1/openapi_generated.go: the schemas of the core types from `ISCSIPersistentVolumeSource` to `LocalVolumeSource`.
use jupyter_operator.Common.{String, List, [], ◌∷◌}
use jupyter_operator.OpenApi.Schema.{
  Definition, array, boolean, core, int32, map_of, meta, object, ref, text,
}

abbrev pub iscsi_persistent_volume_source_schema : Definition
iscsi_persistent_volume_source_schema =
    object
      (("targetPortal", text)
        ∷ ("iqn", text)
        ∷ ("lun", int32)
        ∷ ("iscsiInterface", text)
        ∷ ("fsType", text)
        ∷ ("readOnly", boolean)
        ∷ ("portals", array text)
        ∷ ("chapAuthDiscovery", boolean)
        ∷ ("chapAuthSession", boolean)
        ∷ ("secretRef", ref (core "SecretReference"))
        ∷ ("initiatorName", text)
        ∷ [])
      ("targetPortal" ∷ "iqn" ∷ "lun" ∷ []) (core "SecretReference" ∷ [])

abbrev pub iscsi_volume_source_schema : Definition
iscsi_volume_source_schema =
    object
      (("targetPortal", text)
        ∷ ("iqn", text)
        ∷ ("lun", int32)
        ∷ ("iscsiInterface", text)
        ∷ ("fsType", text)
        ∷ ("readOnly", boolean)
        ∷ ("portals", array text)
        ∷ ("chapAuthDiscovery", boolean)
        ∷ ("chapAuthSession", boolean)
        ∷ ("secretRef", ref (core "LocalObjectReference"))
        ∷ ("initiatorName", text)
        ∷ [])
      ("targetPortal" ∷ "iqn" ∷ "lun" ∷ []) (core "LocalObjectReference" ∷ [])

abbrev pub key_to_path_schema : Definition
key_to_path_schema =
    object (("key", text) ∷ ("path", text) ∷ ("mode", int32) ∷ []) ("key" ∷ "path" ∷ []) ([])

abbrev pub lifecycle_schema : Definition
lifecycle_schema =
    object (("postStart", ref (core "Handler")) ∷ ("preStop", ref (core "Handler")) ∷ []) ([])
      (core "Handler" ∷ [])

abbrev pub limit_range_schema : Definition
limit_range_schema =
    object
      (("kind", text)
        ∷ ("apiVersion", text)
        ∷ ("metadata", ref (meta "ObjectMeta"))
        ∷ ("spec", ref (core "LimitRangeSpec"))
        ∷ [])
      ([]) (core "LimitRangeSpec" ∷ meta "ObjectMeta" ∷ [])

abbrev pub limit_range_item_schema : Definition
limit_range_item_schema =
    object
      (("type", text)
        ∷ ("max", map_of (ref "k8s.io/apimachinery/pkg/api/resource.Quantity"))
        ∷ ("min", map_of (ref "k8s.io/apimachinery/pkg/api/resource.Quantity"))
        ∷ ("default", map_of (ref "k8s.io/apimachinery/pkg/api/resource.Quantity"))
        ∷ ("defaultRequest", map_of (ref "k8s.io/apimachinery/pkg/api/resource.Quantity"))
        ∷ ("maxLimitRequestRatio", map_of (ref "k8s.io/apimachinery/pkg/api/resource.Quantity"))
        ∷ [])
      ([]) ("k8s.io/apimachinery/pkg/api/resource.Quantity" ∷ [])

abbrev pub limit_range_list_schema : Definition
limit_range_list_schema =
    object
      (("kind", text)
        ∷ ("apiVersion", text)
        ∷ ("metadata", ref (meta "ListMeta"))
        ∷ ("items", array (ref (core "LimitRange")))
        ∷ [])
      ("items" ∷ []) (core "LimitRange" ∷ meta "ListMeta" ∷ [])

abbrev pub limit_range_spec_schema : Definition
limit_range_spec_schema =
    object (("limits", array (ref (core "LimitRangeItem"))) ∷ []) ("limits" ∷ [])
      (core "LimitRangeItem" ∷ [])

abbrev pub list_schema : Definition
list_schema =
    object
      (("kind", text)
        ∷ ("apiVersion", text)
        ∷ ("metadata", ref (meta "ListMeta"))
        ∷ ("items", array (ref "k8s.io/apimachinery/pkg/runtime.RawExtension"))
        ∷ [])
      ("items" ∷ []) (meta "ListMeta" ∷ "k8s.io/apimachinery/pkg/runtime.RawExtension" ∷ [])

abbrev pub load_balancer_ingress_schema : Definition
load_balancer_ingress_schema = object (("ip", text) ∷ ("hostname", text) ∷ []) ([]) ([])

abbrev pub load_balancer_status_schema : Definition
load_balancer_status_schema =
    object (("ingress", array (ref (core "LoadBalancerIngress"))) ∷ []) ([])
      (core "LoadBalancerIngress" ∷ [])

abbrev pub local_object_reference_schema : Definition
local_object_reference_schema = object (("name", text) ∷ []) ([]) ([])

abbrev pub local_volume_source_schema : Definition
local_volume_source_schema = object (("path", text) ∷ ("fsType", text) ∷ []) ("path" ∷ []) ([])

-- Their entries in `GetOpenAPIDefinitions`.
abbrev pub from_iscsi : List (String × Definition)
from_iscsi =
    (core "ISCSIPersistentVolumeSource", iscsi_persistent_volume_source_schema)
    ∷ (core "ISCSIVolumeSource", iscsi_volume_source_schema)
    ∷ (core "KeyToPath", key_to_path_schema)
    ∷ (core "Lifecycle", lifecycle_schema)
    ∷ (core "LimitRange", limit_range_schema)
    ∷ (core "LimitRangeItem", limit_range_item_schema)
    ∷ (core "LimitRangeList", limit_range_list_schema)
    ∷ (core "LimitRangeSpec", limit_range_spec_schema)
    ∷ (core "List", list_schema)
    ∷ (core "LoadBalancerIngress", load_balancer_ingress_schema)
    ∷ (core "LoadBalancerStatus", load_balancer_status_schema)
    ∷ (core "LocalObjectReference", local_object_reference_schema)
    ∷ (core "LocalVolumeSource", local_volume_source_schema)
    ∷ []
