-- ===== src/OpenApi/Meta.antt =====
-- pkg/apis/jupyter/v1/openapi_generated.go: the schemas of the metadata types, in the order of their names.
pub mod FromApiGroup
pub mod FromGroupVersionKind
pub mod FromPreconditions
