-- ===== src/OpenApi/Table.antt =====
-- `GetOpenAPIDefinitions` of pkg/apis/jupyter/v1/openapi_generated.go. The order of a map means nothing.
use jupyter_operator.Common.{String, List, ◌++◌}
use jupyter_operator.OpenApi.Schema.{Definition, TimeSchemas}
use jupyter_operator.OpenApi.Jupyter.{jupyter_definitions}
use jupyter_operator.OpenApi.Core.FromAws.{from_aws}
use jupyter_operator.OpenApi.Core.FromCinder.{from_cinder}
use jupyter_operator.OpenApi.Core.FromContainer.{from_container}
use jupyter_operator.OpenApi.Core.FromEmptyDir.{from_empty_dir}
use jupyter_operator.OpenApi.Core.FromEventSource.{from_event_source}
use jupyter_operator.OpenApi.Core.FromIscsi.{from_iscsi}
use jupyter_operator.OpenApi.Core.FromNfs.{from_nfs}
use jupyter_operator.OpenApi.Core.FromNodeSelector.{from_node_selector}
use jupyter_operator.OpenApi.Core.FromVolumeClaimList.{from_volume_claim_list}
use jupyter_operator.OpenApi.Core.FromVolumeSpec.{from_volume_spec}
use jupyter_operator.OpenApi.Core.FromPodDnsConfig.{from_pod_dns_config}
use jupyter_operator.OpenApi.Core.FromPodSpec.{from_pod_spec}
use jupyter_operator.OpenApi.Core.FromProbe.{from_probe}
use jupyter_operator.OpenApi.Core.FromResourceField.{from_resource_field}
use jupyter_operator.OpenApi.Core.FromSecretKey.{from_secret_key}
use jupyter_operator.OpenApi.Core.FromServicePort.{from_service_port}
use jupyter_operator.OpenApi.Core.FromVolume.{from_volume}
use jupyter_operator.OpenApi.Core.FromVolumeSource.{from_volume_source}
use jupyter_operator.OpenApi.Meta.FromApiGroup.{from_api_group}
use jupyter_operator.OpenApi.Meta.FromGroupVersionKind.{from_group_version_kind}
use jupyter_operator.OpenApi.Meta.FromPreconditions.{from_preconditions}

unfoldable pub get_open_api_definitions : TimeSchemas → List (String × Definition)
get_open_api_definitions times =
    jupyter_definitions
    ++ from_aws
    ++ from_cinder
    ++ from_container
    ++ from_empty_dir
    ++ from_event_source
    ++ from_iscsi
    ++ from_nfs
    ++ from_node_selector
    ++ from_volume_claim_list
    ++ from_volume_spec
    ++ from_pod_dns_config
    ++ from_pod_spec
    ++ from_probe
    ++ from_resource_field
    ++ from_secret_key
    ++ from_service_port
    ++ from_volume
    ++ from_volume_source
    ++ from_api_group
    ++ from_group_version_kind times
    ++ from_preconditions times
