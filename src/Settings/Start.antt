-- ===== src/Settings/Start.antt =====
-- backend/controller: the runnable that SetupWithManager adds, checkSecrets, StartGrpcServer and
-- getMTLSServer of grpc_server.go. Logs are left out.
use fms_lm_eval_service.Prelude.{
  String, ◌<>◌, Bool, not, ◌&&◌, ◌||◌, Option, none, some, is_none, if◌then◌else◌,
}
use fms_lm_eval_service.Api.Core.{Duration, Error, errorf, Result, ok, err, NamespacedName}
use fms_lm_eval_service.Text.Decimal.{itoa}
use fms_lm_eval_service.Cluster.Interface.{Kube}
use fms_lm_eval_service.Pod.Options.{
  ServiceOptions, Reconciler, tls_mode_none, tls_mode_tls, tls_mode_mtls,
}
use fms_lm_eval_service.Settings.Construct.{construct_options}

abbrev pub grpc_server_cert_env : String
grpc_server_cert_env = "GRPC_SERVER_CERT"

abbrev pub grpc_server_key_env : String
grpc_server_key_env = "GRPC_SERVER_KEY"

abbrev pub grpc_client_ca_env : String
grpc_client_ca_env = "GRPC_CLIENT_CA"

-- viper, crypto/tls, crypto/x509, net and grpc, as the server uses them. `mutual_tls` gives the
-- credentials of a configuration that requires and verifies a client's certificate.
pub record Listener : Type 1 where
  pub Certificate : Type 0
  pub Pool : Type 0
  pub Credentials : Type 0
  pub is_set : String → Bool
  pub get_string : String → String
  pub load_key_pair : String → String → Result Certificate
  pub read_file : String → Result String
  pub pool_of_pem : String → Option Pool
  pub mutual_tls : Certificate → Pool → Credentials
  pub tls_from_file : String → String → Result Credentials
  pub listen : String → Option Error
  pub serve : Option Credentials → Option Error
  pub quote : String → String

-- How `StartGrpcServer` ends: the settings it leaves, the credentials of the server that was
-- listening, with none for an insecure one, or no server; and the error.
pub record Started (Credentials : Type 0) : Type 0 where
  pub options : ServiceOptions
  pub server : Option (Option Credentials)
  pub error : Option Error

module _ (T : Listener) where
  unfoldable pub get_mtls_server : String → String → Result T.Credentials
  get_mtls_server server_cert server_key =
      let client_ca_path = T.get_string grpc_client_ca_env in
      elim (T.load_key_pair server_cert server_key) [
        | err e ↦ err e
        | ok cert ↦ elim (T.read_file client_ca_path) [
          | err e ↦ err e
          | ok pem ↦ elim (T.pool_of_pem pem) [
            | none ↦ err (errorf ("failed to parse " <> T.quote client_ca_path))
            | some ca ↦ ok (T.mutual_tls cert ca)
          ]
        ]
      ]

  -- From the registration of the service on.
  abbrev pub serve_on : ServiceOptions → Option T.Credentials → Started T.Credentials
  serve_on options server = elim (T.listen (":" <> itoa options.grpc_port)) [
    | some e ↦ record { options = options; server = none; error = some e }
    | none ↦ record { options = options; server = some server; error = T.serve server }
  ]

  abbrev pub refused_start : ServiceOptions → Error → Started T.Credentials
  refused_start options e = record { options = options; server = none; error = some e }

  unfoldable pub start_grpc_server : ServiceOptions → Started T.Credentials
  start_grpc_server options =
      let server_key = T.get_string grpc_server_key_env in
      let server_cert = T.get_string grpc_server_cert_env in
      if T.is_set grpc_server_cert_env && T.is_set grpc_server_key_env
      then (if T.is_set grpc_client_ca_env
          then elim (get_mtls_server server_cert server_key) [
            | err e ↦ refused_start options e
            | ok creds ↦ serve_on (record options { grpc_tls_mode = tls_mode_mtls }) (some creds)
          ]
          else elim (T.tls_from_file server_cert server_key) [
            | err e ↦ refused_start options e
            | ok creds ↦ serve_on (record options { grpc_tls_mode = tls_mode_tls }) (some creds)
          ])
      else serve_on (record options { grpc_tls_mode = tls_mode_none }) none

module _ (K : Kube) where
  abbrev pub is_secret_exists : K.Server → Reconciler → String → Bool
  is_secret_exists s r name =
      is_none (K.get_secret s (record { namespace = r.namespace; name = name }))

  -- The second message names the server's secret, as the code does.
  unfoldable pub check_secrets : K.Server → Reconciler → Option Error
  check_secrets s r =
      if is_secret_exists s r r.options.grpc_server_secret
      then (if is_secret_exists s r r.options.grpc_client_secret
          then none
          else some (errorf ("secret " <> r.options.grpc_server_secret <> " not found")))
      else some (errorf ("secret " <> r.options.grpc_server_secret <> " not found"))

  -- How the runnable ends: the error it returns, or the settings and what becomes of the server
  -- that it starts in the background, whose error nobody reads.
  -- `get_config_map` is the data of the config map under a key.
  module _ (T : Listener) (parse_duration : String → Result Duration)
      (get_config_map : K.Server → NamespacedName → Result (String → Option String)) where
    abbrev pub is_tls_set : Bool
    is_tls_set =
        T.is_set grpc_server_cert_env || T.is_set grpc_server_key_env || T.is_set grpc_client_ca_env

    unfoldable pub run_setup : K.Server → Reconciler → Result (Started T.Credentials)
    run_setup s r =
        elim (get_config_map s (record { namespace = r.namespace; name = r.config_map })) [
          | err e ↦ err e
          | ok config ↦
              let options = (construct_options parse_duration config).options in
              if is_none (check_secrets s (record r { options = options })) || not is_tls_set
              then ok (start_grpc_server T options)
              else err (errorf "TLS or mTLS is enabled for GRPC server but secrets don't exist")
        ]
