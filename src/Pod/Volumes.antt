-- ===== src/Pod/Volumes.antt =====
-- backend/controller/lmevaljob_controller.go: generateEnvs, patch4GrpcTLS and patch4FileSecrets.
use fms_lm_eval_service.Prelude.{
  ℕ, suc, String, ◌<>◌, true, false, Option, none, some, List, [], ◌∷◌, ◌++◌,
}
use fms_lm_eval_service.Text.Decimal.{format_nat}
use fms_lm_eval_service.Api.Core.{EnvVar, SecretKeySelector, Volume, VolumeMount}
use fms_lm_eval_service.Api.Job.{EnvSecret, FileSecret}
use fms_lm_eval_service.Pod.Options.{
  ServiceOptions, TlsMode, tls_mode_none, tls_mode_tls, tls_mode_mtls,
}

-- backend/driver/driver.go
abbrev pub grpc_client_key_env : String
grpc_client_key_env = "GRPC_CLIENT_KEY"

abbrev pub grpc_client_cert_env : String
grpc_client_cert_env = "GRPC_CLIENT_CERT"

abbrev pub grpc_server_ca_env : String
grpc_server_ca_env = "GRPC_SERVER_CA"

abbrev pub plain_env : String → String → EnvVar
plain_env name value = record { name = name; value = value; value_from = none }

-- One round of the loop of `generateEnvs`: a plain secret wins over a reference.
abbrev pub env_of_source : String → Option String → Option SecretKeySelector → List EnvVar
env_of_source env (some secret) _ = plain_env env secret ∷ []
env_of_source env none (some secret_ref) =
    record {
      name = env;
      value = "";
      value_from = some (record { secret_key_ref = some secret_ref });
    }
    ∷ []
env_of_source env none none = []

unfoldable pub generate_envs : List EnvSecret → List EnvVar
generate_envs [] = []
generate_envs (s ∷ secrets) = env_of_source s.env s.secret s.secret_ref ++ generate_envs secrets

-- The arguments and results of `patch4GrpcTLS`.
pub record PodParts : Type 0 where
  pub env_vars : List EnvVar
  pub volumes : List Volume
  pub volume_mounts : List VolumeMount

-- 420 is 0o644.
abbrev secret_mode : ℕ
secret_mode = 420

abbrev client_cert_volume : ServiceOptions → Volume
client_cert_volume options = record {
  name = "client-cert";
  source = record {
    empty_dir = none;
    secret = some (record {
      secret_name = options.grpc_client_secret;
      items = [];
      default_mode = some secret_mode;
      optional = none;
    });
  };
}

abbrev server_cert_volume : ServiceOptions → Volume
server_cert_volume options = record {
  name = "server-cert";
  source = record {
    empty_dir = none;
    secret = some (record {
      secret_name = options.grpc_server_secret;
      items = record { key = "ca.crt"; path = "ca.crt" } ∷ [];
      default_mode = some secret_mode;
      optional = none;
    });
  };
}

unfoldable pub patch_grpc_tls : ServiceOptions → PodParts → TlsMode → PodParts
patch_grpc_tls options parts tls_mode_mtls = record {
  env_vars =
      parts.env_vars
      ++ (plain_env grpc_client_key_env "/tmp/k8s-grpc-client/certs/tls.key"
          ∷ plain_env grpc_client_cert_env "/tmp/k8s-grpc-client/certs/tls.crt"
          ∷ plain_env grpc_server_ca_env "/tmp/k8s-grpc-server/certs/ca.crt"
          ∷ []);
  volumes = parts.volumes ++ (client_cert_volume options ∷ server_cert_volume options ∷ []);
  volume_mounts =
      parts.volume_mounts
      ++ (record {
        name = "client-cert";
        mount_path = "/tmp/k8s-grpc-client/certs";
        read_only = true;
      }
          ∷ record {
            name = "server-cert";
            mount_path = "/tmp/k8s-grpc-server/certs";
            read_only = true;
          }
          ∷ []);
}
patch_grpc_tls options parts tls_mode_tls = record {
  env_vars =
      parts.env_vars ++ (plain_env grpc_server_ca_env "/tmp/k8s-grpc-server/certs/ca.crt" ∷ []);
  volumes = parts.volumes ++ (server_cert_volume options ∷ []);
  volume_mounts =
      parts.volume_mounts
      ++ (record {
        name = "server-cert";
        mount_path = "/tmp/k8s-grpc-server/certs";
        read_only = false;
      }
          ∷ []);
}
patch_grpc_tls options parts tls_mode_none = parts

abbrev pub sec_vol_name : ℕ → String
sec_vol_name counter = "secVol" <> format_nat counter

-- The volume and the mount of the secret that the loop of `patch4FileSecrets` meets at `counter`.
abbrev pub secret_volume : ℕ → FileSecret → Volume
secret_volume counter s = record {
  name = sec_vol_name counter;
  source = record { empty_dir = none; secret = some s.secret_ref };
}

abbrev pub secret_mount : ℕ → FileSecret → VolumeMount
secret_mount counter s = record {
  name = sec_vol_name counter;
  mount_path = s.mount_path;
  read_only = true;
}

-- Each round of the loop has a variable `secret` of its own, as go.mod asks for Go 1.22, so the pointers
-- into it differ.
unfoldable pub patch_file_secrets_from :
    ℕ → List Volume → List VolumeMount → List FileSecret → List Volume × List VolumeMount
patch_file_secrets_from counter volumes mounts [] = (volumes, mounts)
patch_file_secrets_from counter volumes mounts (s ∷ secrets) =
    patch_file_secrets_from (suc counter) (volumes ++ (secret_volume counter s ∷ []))
      (mounts ++ (secret_mount counter s ∷ [])) secrets

unfoldable pub patch_file_secrets :
    List Volume → List VolumeMount → List FileSecret → List Volume × List VolumeMount
unfolding patch_file_secrets_from
patch_file_secrets volumes mounts secrets = patch_file_secrets_from 1 volumes mounts secrets
