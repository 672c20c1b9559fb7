-- ===== src/Tests/Settings.antt =====
-- The theorems about the settings and the server at a config map and an environment.
use fms_lm_eval_service.Prelude.{
  String, ◌==◌, Bool, true, false, ◌≡◌, refl, none, some, Option, str_ne, if◌then◌else◌,
}
use fms_lm_eval_service.Prelude.Int.{pos}
use fms_lm_eval_service.Api.Core.{Duration, errorf, Result, ok, err, NamespacedName}
use fms_lm_eval_service.Text.ParseInt.{parse_int, parse_uint, parse_digits}
use fms_lm_eval_service.Pod.Options.{default_options, tls_mode_mtls}
use fms_lm_eval_service.Pod.Volumes.{grpc_client_key_env, grpc_client_cert_env, grpc_server_ca_env}
use fms_lm_eval_service.Pod.Build.{create_pod, pod_parts}
use fms_lm_eval_service.Driver.Connect.{connect_mode}
use fms_lm_eval_service.Settings.Construct.{construct_options, atoi, pull_policy}
use fms_lm_eval_service.Settings.Laws.{value_or, construct_options-fields}
use fms_lm_eval_service.Settings.Start.{
  Listener, start_grpc_server, get_mtls_server, check_secrets, is_secret_exists, run_setup,
}
use fms_lm_eval_service.Settings.Agree.{Verifies, start_grpc_server-connect_mode}
use fms_lm_eval_service.Settings.Secrets.{run_setup-secrets}
use fms_lm_eval_service.Cluster.Interface.{Kube}
use fms_lm_eval_service.Cluster.Memory.{Memory, memory, not_found}
use fms_lm_eval_service.Tests.Data.{job, cluster, reconciler}
use fms_lm_eval_service.Tests.Pod.{environ, transport, transport-SeesEnv, pod_main}

abbrev pub config : String → Option String
config key =
    if key == "grpc-port"
    then some "9090"
    else if key == "image-pull-policy"
    then some "Sometimes"
    else if key == "pod-image"
    then some "quay.io/eval"
    else none

abbrev pub no_duration : String → Result Duration
no_duration v = err (errorf "invalid duration")

-- A valid setting is taken, an invalid one is not.
construct_options-runs :
    (construct_options no_duration config).options
    ≡ record default_options { grpc_port = pos 9090; pod_image = "quay.io/eval" }
unfolding construct_options parse_int parse_uint parse_digits
construct_options-runs = refl

construct_options-fields_example : (construct_options no_duration config).options ≡ record {
  pod_image = "quay.io/eval";
  driver_image = default_options.driver_image;
  pod_checking_interval = default_options.pod_checking_interval;
  image_pull_policy = value_or default_options.image_pull_policy pull_policy (some "Sometimes");
  grpc_port = value_or default_options.grpc_port atoi (some "9090");
  grpc_service = default_options.grpc_service;
  grpc_server_secret = default_options.grpc_server_secret;
  grpc_client_secret = default_options.grpc_client_secret;
  grpc_tls_mode = default_options.grpc_tls_mode;
}
construct_options-fields_example = construct_options-fields no_duration config

-- All three variables are set; `true` stands for credentials that ask for a certificate.
abbrev pub listener : Listener
listener = record {
  Certificate = Unit;
  Pool = Unit;
  Credentials = Bool;
  is_set = λ name. true;
  get_string = λ name. "/tls/file";
  load_key_pair = λ cert key. ok tt;
  read_file = λ path. ok "pem";
  pool_of_pem = λ pem. some tt;
  mutual_tls = λ cert ca. true;
  tls_from_file = λ cert key. ok false;
  listen = λ addr. none;
  serve = λ creds. none;
  quote = λ text. text;
}

listener-Verifies : Verifies listener (λ creds. creds)
listener-Verifies = record {
  mutual_tls_verifies = λ cert ca. refl;
  tls_from_file_verifies = λ cert key creds e. cc;
}

start_grpc_server-connect_mode_example :
    connect_mode (transport (pod_parts reconciler job).env_vars) ≡ tls_mode_mtls
unfolding create_pod start_grpc_server get_mtls_server
start_grpc_server-connect_mode_example =
    start_grpc_server-connect_mode listener (λ creds. creds) listener-Verifies default_options
      (some true) refl reconciler job (transport (pod_parts reconciler job).env_vars)
      (environ (pod_parts reconciler job).env_vars) pod_main refl refl
      (
        (
          str_ne "my_env" grpc_client_key_env refl,
          str_ne "my_env" grpc_client_cert_env refl,
          str_ne "my_env" grpc_server_ca_env refl,
        ),
        tt,
      )
      (transport-SeesEnv (pod_parts reconciler job).env_vars)

-- A cluster that has every secret, and the settings above as its config map.
abbrev secretive : Kube
secretive = record memory { get_secret = λ s k. none }

abbrev pub config_map : Memory → NamespacedName → Result (String → Option String)
config_map s k = ok config

run_setup-secrets_example :
    let started = start_grpc_server listener (construct_options no_duration config).options in
    (found : String → Option String) × (config_map
        (cluster job (err not_found) none)
        (record { namespace = "test"; name = "lm-eval-service" })
      ≡ ok found)
    × let options = (construct_options no_duration found).options in
      (started ≡ start_grpc_server listener options)
      × (is_secret_exists secretive
            (cluster job (err not_found) none)
            reconciler
            options.grpc_server_secret
          ≡ true)
      × (is_secret_exists secretive
            (cluster job (err not_found) none)
            reconciler
            options.grpc_client_secret
          ≡ true)
unfolding run_setup check_secrets
run_setup-secrets_example =
    run_setup-secrets secretive (cluster job (err not_found) none) listener no_duration config_map
      reconciler (start_grpc_server listener (construct_options no_duration config).options) refl
      refl
