-- ===== src/OpenApi/Core.antt =====
-- pkg/apis/jupyter/v1/openapi_generated.go: the schemas of the core types, in the order of their names.
pub mod FromAws
pub mod FromCinder
pub mod FromContainer
pub mod FromEmptyDir
pub mod FromEventSource
pub mod FromIscsi
pub mod FromNfs
pub mod FromNodeSelector
pub mod FromVolumeClaimList
pub mod FromVolumeSpec
pub mod FromPodDnsConfig
pub mod FromPodSpec
pub mod FromProbe
pub mod FromResourceField
pub mod FromSecretKey
pub mod FromServicePort
pub mod FromVolume
pub mod FromVolumeSource
