-- ===== src/Driver/Connect.antt =====
-- backend/driver/driver.go: NewDriver and getGRPCClientConn.
use fms_lm_eval_service.Prelude.{
  String, ◌<>◌, ◌==◌, Bool, ◌&&◌, ◌||◌, Option, none, some, List, if◌then◌else◌,
}
use fms_lm_eval_service.Prelude.Int.{ℤ, is_zero}
use fms_lm_eval_service.Text.Decimal.{itoa}
use fms_lm_eval_service.Api.Core.{Error, errorf, Result, ok, err}
use fms_lm_eval_service.Pod.Options.{TlsMode, tls_mode_none, tls_mode_tls, tls_mode_mtls}
use fms_lm_eval_service.Pod.Volumes.{grpc_client_key_env, grpc_client_cert_env, grpc_server_ca_env}

-- `has_context` says whether the context is not nil.
pub record DriverOption : Type 0 where
  pub has_context : Bool
  pub job_namespace : String
  pub job_name : String
  pub grpc_service : String
  pub grpc_port : ℤ
  pub output_path : String
  pub args : List String

-- viper, crypto/tls, crypto/x509 and grpc, as the driver uses them: the settings, a key pair, a
-- file, a pool with the certificates of a file's text, the credentials of a configuration with a
-- server name, and a client. `quote` is the verb `%q`.
pub record Transport : Type 1 where
  pub Certificate : Type 0
  pub Pool : Type 0
  pub Credentials : Type 0
  pub Connection : Type 0
  pub is_set : String → Bool
  pub get_string : String → String
  pub load_key_pair : String → String → Result Certificate
  pub read_file : String → Result String
  pub pool_of_pem : String → Option Pool
  pub new_tls : String → Certificate → Pool → Credentials
  pub tls_from_file : String → String → Result Credentials
  pub insecure : Credentials
  pub new_client : String → Credentials → Result Connection
  pub quote : String → String

-- `err` with a text in front: `fmt.Errorf("…: %v", err)`
abbrev pub wrap : String → Error → Error
wrap context e = errorf (context <> ": " <> e.message)

module _ (T : Transport) where
  -- Which of its three branches `getGRPCClientConn` takes.
  unfoldable pub connect_mode : TlsMode
  connect_mode =
      if T.is_set grpc_server_ca_env
      then (if T.is_set grpc_client_cert_env && T.is_set grpc_client_key_env
          then tls_mode_mtls
          else tls_mode_tls)
      else tls_mode_none

  abbrev mtls_client : String → Result T.Connection
  mtls_client addr =
      let ca_path = T.get_string grpc_server_ca_env in
      elim (T.load_key_pair (T.get_string grpc_client_cert_env)
        (T.get_string grpc_client_key_env)) [
          | err e ↦ err e
          | ok cert ↦ elim (T.read_file ca_path) [
            | err e ↦ err (wrap ("failed to read server CA " <> T.quote ca_path) e)
            | ok pem ↦ elim (T.pool_of_pem pem) [
              | none ↦ err (errorf ("failed to parse server CA " <> T.quote ca_path))
              | some ca ↦ T.new_client addr (T.new_tls addr cert ca)
            ]
          ]
        ]

  abbrev tls_client : String → Result T.Connection
  tls_client addr = elim (T.tls_from_file (T.get_string grpc_server_ca_env) addr) [
    | err e ↦ err (wrap "failed to load server CA" e)
    | ok creds ↦ elim (T.new_client addr creds) [
      | err e ↦ err (wrap "failed to connect to GRPC server" e)
      | ok conn ↦ ok conn
    ]
  ]

  abbrev pub client_of : TlsMode → String → Result T.Connection
  client_of tls_mode_mtls addr = mtls_client addr
  client_of tls_mode_tls addr = tls_client addr
  client_of tls_mode_none addr = T.new_client addr T.insecure

  unfoldable pub get_grpc_client_conn : DriverOption → Result T.Connection
  unfolding connect_mode itoa
  get_grpc_client_conn option =
      if is_zero option.grpc_port || option.grpc_service == ""
      then err (errorf "GrpcService or GrpcPort is not valid")
      else client_of connect_mode (option.grpc_service <> ":" <> itoa option.grpc_port)

  -- `NewDriver` at an option that is not nil: the connection of the new driver.
  unfoldable pub new_driver : DriverOption → Result T.Connection
  unfolding get_grpc_client_conn
  new_driver option =
      if option.has_context
      then (if option.job_namespace == "" || option.job_name == ""
          then err (errorf "JobNamespace or JobName is empty")
          else get_grpc_client_conn option)
      else err (errorf "context is nil")
