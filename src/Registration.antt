-- ===== src/Registration.antt =====
-- pkg/apis/jupyter/v1/register.go, pkg/apis/jupyter/register.go and the schemes of pkg/clientset: the
-- group, its version and its types.
use jupyter_operator.Common.{String, List, ◌∷◌}

pub record GroupVersion : Type 0 where
  pub group : String
  pub version : String

pub record GroupResource : Type 0 where
  pub group : String
  pub resource : String

pub record GroupVersionResource : Type 0 where
  pub group : String
  pub version : String
  pub resource : String

-- `GroupName` of pkg/apis/jupyter, from which the clients for tests were generated.
abbrev pub generated_group_name : String
generated_group_name = "jupyter"

abbrev pub group_name : String
group_name = "jupyter.squat.ai"

abbrev pub scheme_group_version : GroupVersion
scheme_group_version = record { group = group_name; version = "v1" }

-- `gv.WithResource(resource)` and `gvr.GroupResource()`
abbrev pub with_resource : GroupVersion → String → GroupVersionResource
with_resource gv resource = record { group = gv.group; version = gv.version; resource = resource }

abbrev pub group_resource : GroupVersionResource → GroupResource
group_resource gvr = record { group = gvr.group; resource = gvr.resource }

-- `Resource`
abbrev pub resource : String → GroupResource
resource name = group_resource (with_resource scheme_group_version name)

-- The types that a scheme knows, by group, version and kind, and the versions whose options it knows.
pub record Scheme : Type 0 where
  pub known : List (GroupVersion × String)
  pub option_versions : List GroupVersion

-- `addKnownTypes`
unfoldable pub add_known_types : Scheme → Scheme
add_known_types scheme = record {
  known =
      (scheme_group_version, "Notebook") ∷ (scheme_group_version, "NotebookList") ∷ scheme.known;
  option_versions = scheme_group_version ∷ scheme.option_versions;
}

-- The `init` of the schemes.
unfoldable pub init_scheme : Scheme → Scheme
init_scheme scheme = add_known_types (record scheme {
  option_versions = record { group = ""; version = "v1" } ∷ scheme.option_versions;
})
