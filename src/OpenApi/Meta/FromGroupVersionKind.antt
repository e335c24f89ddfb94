-- ===== src/OpenApi/Meta/FromGroupVersionKind.antt =====
-- pkg/apis/jupyter/v1/openapi_generated.go: the schemas of the metadata types from `GroupVersionKind` to `Patch`.
use jupyter_operator.Common.{String, List, [], ◌∷◌, none, some}
use jupyter_operator.OpenApi.Schema.{
  Definition, TimeSchemas, array, boolean, int64, map_of, merged, meta, object, ref, text,
}

abbrev pub group_version_kind_schema : Definition
group_version_kind_schema =
    object (("group", text) ∷ ("version", text) ∷ ("kind", text) ∷ [])
      ("group" ∷ "version" ∷ "kind" ∷ []) ([])

abbrev pub group_version_resource_schema : Definition
group_version_resource_schema =
    object (("group", text) ∷ ("version", text) ∷ ("resource", text) ∷ [])
      ("group" ∷ "version" ∷ "resource" ∷ []) ([])

abbrev pub initializer_schema : Definition
initializer_schema = object (("name", text) ∷ []) ("name" ∷ []) ([])

abbrev pub initializers_schema : Definition
initializers_schema =
    object
      (("pending", merged (some "name") "merge" (array (ref (meta "Initializer"))))
        ∷ ("result", ref (meta "Status"))
        ∷ [])
      ("pending" ∷ []) (meta "Initializer" ∷ meta "Status" ∷ [])

abbrev pub internal_event_schema : Definition
internal_event_schema =
    object (("Type", text) ∷ ("Object", ref "k8s.io/apimachinery/pkg/runtime.Object") ∷ [])
      ("Type" ∷ "Object" ∷ []) ("k8s.io/apimachinery/pkg/runtime.Object" ∷ [])

abbrev pub label_selector_schema : Definition
label_selector_schema =
    object
      (("matchLabels", map_of text)
        ∷ ("matchExpressions", array (ref (meta "LabelSelectorRequirement")))
        ∷ [])
      ([]) (meta "LabelSelectorRequirement" ∷ [])

abbrev pub label_selector_requirement_schema : Definition
label_selector_requirement_schema =
    object
      (("key", merged (some "key") "merge" text) ∷ ("operator", text) ∷ ("values", array text) ∷ [])
      ("key" ∷ "operator" ∷ []) ([])

abbrev pub list_schema : Definition
list_schema =
    object
      (("kind", text)
        ∷ ("apiVersion", text)
        ∷ ("metadata", ref (meta "ListMeta"))
        ∷ ("items", array (ref "k8s.io/apimachinery/pkg/runtime.RawExtension"))
        ∷ [])
      ("items" ∷ []) (meta "ListMeta" ∷ "k8s.io/apimachinery/pkg/runtime.RawExtension" ∷ [])

abbrev pub list_meta_schema : Definition
list_meta_schema =
    object (("selfLink", text) ∷ ("resourceVersion", text) ∷ ("continue", text) ∷ []) ([]) ([])

abbrev pub list_options_schema : Definition
list_options_schema =
    object
      (("kind", text)
        ∷ ("apiVersion", text)
        ∷ ("labelSelector", text)
        ∷ ("fieldSelector", text)
        ∷ ("includeUninitialized", boolean)
        ∷ ("watch", boolean)
        ∷ ("resourceVersion", text)
        ∷ ("timeoutSeconds", int64)
        ∷ ("limit", int64)
        ∷ ("continue", text)
        ∷ [])
      ([]) ([])

unfoldable pub micro_time_schema : TimeSchemas → Definition
micro_time_schema times = record {
  type = times.micro_time_type;
  format = times.micro_time_format;
  properties = [];
  required = [];
  dependencies = [];
}

abbrev pub object_meta_schema : Definition
object_meta_schema =
    object
      (("name", text)
        ∷ ("generateName", text)
        ∷ ("namespace", text)
        ∷ ("selfLink", text)
        ∷ ("uid", text)
        ∷ ("resourceVersion", text)
        ∷ ("generation", int64)
        ∷ ("creationTimestamp", ref (meta "Time"))
        ∷ ("deletionTimestamp", ref (meta "Time"))
        ∷ ("deletionGracePeriodSeconds", int64)
        ∷ ("labels", map_of text)
        ∷ ("annotations", map_of text)
        ∷ ("ownerReferences", merged (some "uid") "merge" (array (ref (meta "OwnerReference"))))
        ∷ ("initializers", ref (meta "Initializers"))
        ∷ ("finalizers", merged none "merge" (array text))
        ∷ ("clusterName", text)
        ∷ [])
      ([]) (meta "Initializers" ∷ meta "OwnerReference" ∷ meta "Time" ∷ [])

abbrev pub owner_reference_schema : Definition
owner_reference_schema =
    object
      (("apiVersion", text)
        ∷ ("kind", text)
        ∷ ("name", text)
        ∷ ("uid", text)
        ∷ ("controller", boolean)
        ∷ ("blockOwnerDeletion", boolean)
        ∷ [])
      ("apiVersion" ∷ "kind" ∷ "name" ∷ "uid" ∷ []) ([])

abbrev pub patch_schema : Definition
patch_schema = object ([]) ([]) ([])

-- Their entries in `GetOpenAPIDefinitions`.
abbrev pub from_group_version_kind : TimeSchemas → List (String × Definition)
from_group_version_kind times =
    (meta "GroupVersionKind", group_version_kind_schema)
    ∷ (meta "GroupVersionResource", group_version_resource_schema)
    ∷ (meta "Initializer", initializer_schema)
    ∷ (meta "Initializers", initializers_schema)
    ∷ (meta "InternalEvent", internal_event_schema)
    ∷ (meta "LabelSelector", label_selector_schema)
    ∷ (meta "LabelSelectorRequirement", label_selector_requirement_schema)
    ∷ (meta "List", list_schema)
    ∷ (meta "ListMeta", list_meta_schema)
    ∷ (meta "ListOptions", list_options_schema)
    ∷ (meta "MicroTime", micro_time_schema times)
    ∷ (meta "ObjectMeta", object_meta_schema)
    ∷ (meta "OwnerReference", owner_reference_schema)
    ∷ (meta "Patch", patch_schema)
    ∷ []
