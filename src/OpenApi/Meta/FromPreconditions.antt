-- ===== src/OpenApi/Meta/FromPreconditions.antt =====
-- pkg/apis/jupyter/v1/openapi_generated.go: the schemas of the metadata types from `Preconditions` to `WatchEvent`.
use jupyter_operator.Common.{String, List, [], ◌∷◌}
use jupyter_operator.OpenApi.Schema.{
  Definition, TimeSchemas, array, int32, int64, meta, object, ref, text,
}

abbrev pub preconditions_schema : Definition
preconditions_schema = object (("uid", text) ∷ []) ([]) ([])

abbrev pub root_paths_schema : Definition
root_paths_schema = object (("paths", array text) ∷ []) ("paths" ∷ []) ([])

abbrev pub server_address_by_client_cidr_schema : Definition
server_address_by_client_cidr_schema =
    object (("clientCIDR", text) ∷ ("serverAddress", text) ∷ [])
      ("clientCIDR" ∷ "serverAddress" ∷ []) ([])

abbrev pub status_schema : Definition
status_schema =
    object
      (("kind", text)
        ∷ ("apiVersion", text)
        ∷ ("metadata", ref (meta "ListMeta"))
        ∷ ("status", text)
        ∷ ("message", text)
        ∷ ("reason", text)
        ∷ ("details", ref (meta "StatusDetails"))
        ∷ ("code", int32)
        ∷ [])
      ([]) (meta "ListMeta" ∷ meta "StatusDetails" ∷ [])

abbrev pub status_cause_schema : Definition
status_cause_schema = object (("reason", text) ∷ ("message", text) ∷ ("field", text) ∷ []) ([]) ([])

abbrev pub status_details_schema : Definition
status_details_schema =
    object
      (("name", text)
        ∷ ("group", text)
        ∷ ("kind", text)
        ∷ ("uid", text)
        ∷ ("causes", array (ref (meta "StatusCause")))
        ∷ ("retryAfterSeconds", int32)
        ∷ [])
      ([]) (meta "StatusCause" ∷ [])

unfoldable pub time_schema : TimeSchemas → Definition
time_schema times = record {
  type = times.time_type;
  format = times.time_format;
  properties = [];
  required = [];
  dependencies = [];
}

abbrev pub timestamp_schema : Definition
timestamp_schema =
    object (("seconds", int64) ∷ ("nanos", int32) ∷ []) ("seconds" ∷ "nanos" ∷ []) ([])

abbrev pub type_meta_schema : Definition
type_meta_schema = object (("kind", text) ∷ ("apiVersion", text) ∷ []) ([]) ([])

abbrev pub update_options_schema : Definition
update_options_schema =
    object (("kind", text) ∷ ("apiVersion", text) ∷ ("dryRun", array text) ∷ []) ([]) ([])

abbrev pub watch_event_schema : Definition
watch_event_schema =
    object (("type", text) ∷ ("object", ref "k8s.io/apimachinery/pkg/runtime.RawExtension") ∷ [])
      ("type" ∷ "object" ∷ []) ("k8s.io/apimachinery/pkg/runtime.RawExtension" ∷ [])

-- Their entries in `GetOpenAPIDefinitions`.
abbrev pub from_preconditions : TimeSchemas → List (String × Definition)
from_preconditions times =
    (meta "Preconditions", preconditions_schema)
    ∷ (meta "RootPaths", root_paths_schema)
    ∷ (meta "ServerAddressByClientCIDR", server_address_by_client_cidr_schema)
    ∷ (meta "Status", status_schema)
    ∷ (meta "StatusCause", status_cause_schema)
    ∷ (meta "StatusDetails", status_details_schema)
    ∷ (meta "Time", time_schema times)
    ∷ (meta "Timestamp", timestamp_schema)
    ∷ (meta "TypeMeta", type_meta_schema)
    ∷ (meta "UpdateOptions", update_options_schema)
    ∷ (meta "WatchEvent", watch_event_schema)
    ∷ []
