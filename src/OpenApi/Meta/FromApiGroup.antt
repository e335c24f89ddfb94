-- ===== src/OpenApi/Meta/FromApiGroup.antt =====
-- pkg/apis/jupyter/v1/openapi_generated.go: the schemas of the metadata types from `APIGroup` to `GroupVersionForDiscovery`.
use jupyter_operator.Common.{String, List, [], ◌∷◌}
use jupyter_operator.OpenApi.Schema.{Definition, array, boolean, int64, meta, object, ref, text}

abbrev pub api_group_schema : Definition
api_group_schema =
    object
      (("kind", text)
        ∷ ("apiVersion", text)
        ∷ ("name", text)
        ∷ ("versions", array (ref (meta "GroupVersionForDiscovery")))
        ∷ ("preferredVersion", ref (meta "GroupVersionForDiscovery"))
        ∷ ("serverAddressByClientCIDRs", array (ref (meta "ServerAddressByClientCIDR")))
        ∷ [])
      ("name" ∷ "versions" ∷ [])
      (meta "GroupVersionForDiscovery" ∷ meta "ServerAddressByClientCIDR" ∷ [])

abbrev pub api_group_list_schema : Definition
api_group_list_schema =
    object (("kind", text) ∷ ("apiVersion", text) ∷ ("groups", array (ref (meta "APIGroup"))) ∷ [])
      ("groups" ∷ []) (meta "APIGroup" ∷ [])

abbrev pub api_resource_schema : Definition
api_resource_schema =
    object
      (("name", text)
        ∷ ("singularName", text)
        ∷ ("namespaced", boolean)
        ∷ ("group", text)
        ∷ ("version", text)
        ∷ ("kind", text)
        ∷ ("verbs", array text)
        ∷ ("shortNames", array text)
        ∷ ("categories", array text)
        ∷ [])
      ("name" ∷ "singularName" ∷ "namespaced" ∷ "kind" ∷ "verbs" ∷ []) ([])

abbrev pub api_resource_list_schema : Definition
api_resource_list_schema =
    object
      (("kind", text)
        ∷ ("apiVersion", text)
        ∷ ("groupVersion", text)
        ∷ ("resources", array (ref (meta "APIResource")))
        ∷ [])
      ("groupVersion" ∷ "resources" ∷ []) (meta "APIResource" ∷ [])

abbrev pub api_versions_schema : Definition
api_versions_schema =
    object
      (("kind", text)
        ∷ ("apiVersion", text)
        ∷ ("versions", array text)
        ∷ ("serverAddressByClientCIDRs", array (ref (meta "ServerAddressByClientCIDR")))
        ∷ [])
      ("versions" ∷ "serverAddressByClientCIDRs" ∷ []) (meta "ServerAddressByClientCIDR" ∷ [])

abbrev pub create_options_schema : Definition
create_options_schema =
    object
      (("kind", text)
        ∷ ("apiVersion", text)
        ∷ ("dryRun", array text)
        ∷ ("includeUninitialized", boolean)
        ∷ [])
      ([]) ([])

abbrev pub delete_options_schema : Definition
delete_options_schema =
    object
      (("kind", text)
        ∷ ("apiVersion", text)
        ∷ ("gracePeriodSeconds", int64)
        ∷ ("preconditions", ref (meta "Preconditions"))
        ∷ ("orphanDependents", boolean)
        ∷ ("propagationPolicy", text)
        ∷ ("dryRun", array text)
        ∷ [])
      ([]) (meta "Preconditions" ∷ [])

abbrev pub duration_schema : Definition
duration_schema = object (("Duration", int64) ∷ []) ("Duration" ∷ []) ([])

abbrev pub export_options_schema : Definition
export_options_schema =
    object (("kind", text) ∷ ("apiVersion", text) ∷ ("export", boolean) ∷ ("exact", boolean) ∷ [])
      ("export" ∷ "exact" ∷ []) ([])

abbrev pub get_options_schema : Definition
get_options_schema =
    object
      (("kind", text)
        ∷ ("apiVersion", text)
        ∷ ("resourceVersion", text)
        ∷ ("includeUninitialized", boolean)
        ∷ [])
      ([]) ([])

abbrev pub group_kind_schema : Definition
group_kind_schema = object (("group", text) ∷ ("kind", text) ∷ []) ("group" ∷ "kind" ∷ []) ([])

abbrev pub group_resource_schema : Definition
group_resource_schema =
    object (("group", text) ∷ ("resource", text) ∷ []) ("group" ∷ "resource" ∷ []) ([])

abbrev pub group_version_schema : Definition
group_version_schema =
    object (("group", text) ∷ ("version", text) ∷ []) ("group" ∷ "version" ∷ []) ([])

abbrev pub group_version_for_discovery_schema : Definition
group_version_for_discovery_schema =
    object (("groupVersion", text) ∷ ("version", text) ∷ []) ("groupVersion" ∷ "version" ∷ []) ([])

-- Their entries in `GetOpenAPIDefinitions`.
abbrev pub from_api_group : List (String × Definition)
from_api_group =
    (meta "APIGroup", api_group_schema)
    ∷ (meta "APIGroupList", api_group_list_schema)
    ∷ (meta "APIResource", api_resource_schema)
    ∷ (meta "APIResourceList", api_resource_list_schema)
    ∷ (meta "APIVersions", api_versions_schema)
    ∷ (meta "CreateOptions", create_options_schema)
    ∷ (meta "DeleteOptions", delete_options_schema)
    ∷ (meta "Duration", duration_schema)
    ∷ (meta "ExportOptions", export_options_schema)
    ∷ (meta "GetOptions", get_options_schema)
    ∷ (meta "GroupKind", group_kind_schema)
    ∷ (meta "GroupResource", group_resource_schema)
    ∷ (meta "GroupVersion", group_version_schema)
    ∷ (meta "GroupVersionForDiscovery", group_version_for_discovery_schema)
    ∷ []
