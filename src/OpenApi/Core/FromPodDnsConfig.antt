-- ===== src/OpenApi/Core/FromPodDnsConfig.antt =====
-- pkg/apis/jupyter/v1/openapi_generated.go: the schemas of the core types from `PodDNSConfig` to `PodSignature`.
use jupyter_operator.Common.{String, List, [], ◌∷◌}
use jupyter_operator.OpenApi.Schema.{
  Definition, array, boolean, core, int32, int64, meta, object, ref, text,
}

abbrev pub pod_dns_config_schema : Definition
pod_dns_config_schema =
    object
      (("nameservers", array text)
        ∷ ("searches", array text)
        ∷ ("options", array (ref (core "PodDNSConfigOption")))
        ∷ [])
      ([]) (core "PodDNSConfigOption" ∷ [])

abbrev pub pod_dns_config_option_schema : Definition
pod_dns_config_option_schema = object (("name", text) ∷ ("value", text) ∷ []) ([]) ([])

abbrev pub pod_exec_options_schema : Definition
pod_exec_options_schema =
    object
      (("kind", text)
        ∷ ("apiVersion", text)
        ∷ ("stdin", boolean)
        ∷ ("stdout", boolean)
        ∷ ("stderr", boolean)
        ∷ ("tty", boolean)
        ∷ ("container", text)
        ∷ ("command", array text)
        ∷ [])
      ("command" ∷ []) ([])

abbrev pub pod_list_schema : Definition
pod_list_schema =
    object
      (("kind", text)
        ∷ ("apiVersion", text)
        ∷ ("metadata", ref (meta "ListMeta"))
        ∷ ("items", array (ref (core "Pod")))
        ∷ [])
      ("items" ∷ []) (core "Pod" ∷ meta "ListMeta" ∷ [])

abbrev pub pod_log_options_schema : Definition
pod_log_options_schema =
    object
      (("kind", text)
        ∷ ("apiVersion", text)
        ∷ ("container", text)
        ∷ ("follow", boolean)
        ∷ ("previous", boolean)
        ∷ ("sinceSeconds", int64)
        ∷ ("sinceTime", ref (meta "Time"))
        ∷ ("timestamps", boolean)
        ∷ ("tailLines", int64)
        ∷ ("limitBytes", int64)
        ∷ [])
      ([]) (meta "Time" ∷ [])

abbrev pub pod_port_forward_options_schema : Definition
pod_port_forward_options_schema =
    object (("kind", text) ∷ ("apiVersion", text) ∷ ("ports", array int32) ∷ []) ([]) ([])

abbrev pub pod_proxy_options_schema : Definition
pod_proxy_options_schema =
    object (("kind", text) ∷ ("apiVersion", text) ∷ ("path", text) ∷ []) ([]) ([])

abbrev pub pod_readiness_gate_schema : Definition
pod_readiness_gate_schema = object (("conditionType", text) ∷ []) ("conditionType" ∷ []) ([])

abbrev pub pod_security_context_schema : Definition
pod_security_context_schema =
    object
      (("seLinuxOptions", ref (core "SELinuxOptions"))
        ∷ ("runAsUser", int64)
        ∷ ("runAsGroup", int64)
        ∷ ("runAsNonRoot", boolean)
        ∷ ("supplementalGroups", array int64)
        ∷ ("fsGroup", int64)
        ∷ ("sysctls", array (ref (core "Sysctl")))
        ∷ [])
      ([]) (core "SELinuxOptions" ∷ core "Sysctl" ∷ [])

abbrev pub pod_signature_schema : Definition
pod_signature_schema =
    object (("podController", ref (meta "OwnerReference")) ∷ []) ([]) (meta "OwnerReference" ∷ [])

-- Their entries in `GetOpenAPIDefinitions`.
abbrev pub from_pod_dns_config : List (String × Definition)
from_pod_dns_config =
    (core "PodDNSConfig", pod_dns_config_schema)
    ∷ (core "PodDNSConfigOption", pod_dns_config_option_schema)
    ∷ (core "PodExecOptions", pod_exec_options_schema)
    ∷ (core "PodList", pod_list_schema)
    ∷ (core "PodLogOptions", pod_log_options_schema)
    ∷ (core "PodPortForwardOptions", pod_port_forward_options_schema)
    ∷ (core "PodProxyOptions", pod_proxy_options_schema)
    ∷ (core "PodReadinessGate", pod_readiness_gate_schema)
    ∷ (core "PodSecurityContext", pod_security_context_schema)
    ∷ (core "PodSignature", pod_signature_schema)
    ∷ []
