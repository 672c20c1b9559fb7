-- ===== src/Pod/Options.antt =====
-- backend/controller/lmevaljob_controller.go, lines 51-123: the constants and the settings.
use fms_lm_eval_service.Prelude.{String}
use fms_lm_eval_service.Prelude.Int.{ℤ, pos}
use fms_lm_eval_service.Api.Core.{Duration}

abbrev pub driver_path : String
driver_path = "/bin/driver"

abbrev pub dest_driver_path : String
dest_driver_path = "/opt/app-root/src/bin/driver"

abbrev pub pod_image_key : String
pod_image_key = "pod-image"

abbrev pub driver_image_key : String
driver_image_key = "driver-image"

abbrev pub pod_checking_interval_key : String
pod_checking_interval_key = "pod-checking-interval"

abbrev pub image_pull_policy_key : String
image_pull_policy_key = "image-pull-policy"

abbrev pub grpc_port_key : String
grpc_port_key = "grpc-port"

abbrev pub grpc_service_key : String
grpc_service_key = "grpc-service"

abbrev pub grpc_server_secret_key : String
grpc_server_secret_key = "grpc-server-secret"

abbrev pub grpc_client_secret_key : String
grpc_client_secret_key = "grpc-client-secret"

abbrev pub default_pod_image : String
default_pod_image = "quay.io/yhwang/lm-eval-aas-flask:test"

abbrev pub default_driver_image : String
default_driver_image = "quay.io/yhwang/lm-eval-aas-driver:test"

abbrev pub default_pod_checking_interval : Duration
default_pod_checking_interval = pos 10000000000

abbrev pub default_image_pull_policy : String
default_image_pull_policy = "Always"

abbrev pub default_grpc_port : ℤ
default_grpc_port = pos 8082

abbrev pub default_grpc_service : String
default_grpc_service = "lm-eval-grpc"

abbrev pub default_grpc_server_secret : String
default_grpc_server_secret = "grpc-server-cert"

abbrev pub default_grpc_client_secret : String
default_grpc_client_secret = "grpc-client-cert"

pub data TlsMode : Type 0 where
  tls_mode_none tls_mode_tls tls_mode_mtls : TlsMode

pub record ServiceOptions : Type 0 where
  pub pod_image : String
  pub driver_image : String
  pub pod_checking_interval : Duration
  pub image_pull_policy : String
  pub grpc_port : ℤ
  pub grpc_service : String
  pub grpc_server_secret : String
  pub grpc_client_secret : String
  pub grpc_tls_mode : TlsMode

-- The defaults of `constructOptionsFromConfigMap`; the TLS mode is the zero value.
abbrev pub default_options : ServiceOptions
default_options = record {
  pod_image = default_pod_image;
  driver_image = default_driver_image;
  pod_checking_interval = default_pod_checking_interval;
  image_pull_policy = default_image_pull_policy;
  grpc_port = default_grpc_port;
  grpc_service = default_grpc_service;
  grpc_server_secret = default_grpc_server_secret;
  grpc_client_secret = default_grpc_client_secret;
  grpc_tls_mode = tls_mode_none;
}

-- `LMEvalJobReconciler`, less its client and recorder. The settings are those that the manager's
-- runnable has stored: a reconciliation before that is not modelled.
pub record Reconciler : Type 0 where
  pub config_map : String
  pub namespace : String
  pub options : ServiceOptions
