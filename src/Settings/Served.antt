-- ===== src/Settings/Served.antt =====
-- The branches of StartGrpcServer (backend/controller/grpc_server.go).
use fms_lm_eval_service.Prelude.{String, ◌&&◌, ◌≡◌, none, some, inl, inr, Bool-cases}
use fms_lm_eval_service.Api.Core.{Error, ok, Result-cases}
use fms_lm_eval_service.Pod.Options.{ServiceOptions, tls_mode_none, tls_mode_tls, tls_mode_mtls}
use fms_lm_eval_service.Settings.Start.{
  Listener, Started, get_mtls_server, serve_on, refused_start, start_grpc_server,
  grpc_server_cert_env, grpc_server_key_env, grpc_client_ca_env,
}

module _ (T : Listener) where
  -- What holds of each way that `StartGrpcServer` can take holds of how it ends.
  pub start_grpc_server-cases :
      (Q : Started T.Credentials → Type 0) (options : ServiceOptions)
      → ((e : Error) → Q (refused_start T options e))
      → Q (serve_on T (record options { grpc_tls_mode = tls_mode_none }) none)
      → ((cert key : String) (creds : T.Credentials)
          → get_mtls_server T cert key ≡ ok creds
          → Q (serve_on T (record options { grpc_tls_mode = tls_mode_mtls }) (some creds)))
      → ((cert key : String) (creds : T.Credentials)
          → T.tls_from_file cert key ≡ ok creds
          → Q (serve_on T (record options { grpc_tls_mode = tls_mode_tls }) (some creds)))
      → Q (start_grpc_server T options)
  start_grpc_server-cases Q options refused insecure mtls tls =
      let key = T.get_string grpc_server_key_env in
      let cert = T.get_string grpc_server_cert_env in
      unfold start_grpc_server in
      elim (Bool-cases (T.is_set grpc_server_cert_env && T.is_set grpc_server_key_env)) [
        | inr bare ↦ rw (start_grpc_server, bare) insecure
        | inl secured ↦ elim (Bool-cases (T.is_set grpc_client_ca_env)) [
          | inl both ↦ elim (Result-cases (get_mtls_server T cert key)) [
            | inr (e, h) ↦ rw (start_grpc_server, secured, both, h) (refused e)
            | inl (creds, h) ↦ rw (start_grpc_server, secured, both, h) (mtls cert key creds h)
          ]
          | inr alone ↦ elim (Result-cases (T.tls_from_file cert key)) [
            | inr (e, h) ↦ rw (start_grpc_server, secured, alone, h) (refused e)
            | inl (creds, h) ↦ rw (start_grpc_server, secured, alone, h) (tls cert key creds h)
          ]
        ]
      ]
