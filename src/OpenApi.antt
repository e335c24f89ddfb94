-- ===== src/OpenApi.antt =====
-- pkg/apis/jupyter/v1/openapi_generated.go: the OpenAPI definitions that the CRD of the notebook is
-- made from.
pub mod Schema
pub mod Jupyter
pub mod Core
pub mod Meta
pub mod Table
pub mod Closed
pub mod Ends
pub mod Conforms
