-- ===== src/Settings/Agree.antt =====
-- The server that StartGrpcServer (backend/controller/grpc_server.go) starts, and the drivers of the
-- pods that the controller creates (createPod, getGRPCClientConn).
use fms_lm_eval_service.Prelude.{
  String, ◌<>◌, Bool, true, false, ◌≡◌, refl, ◌∙◌, ap, Option, none, some, [], ◌∷◌, inl, inr,
  Option-cases, if◌then◌else◌,
}
use fms_lm_eval_service.Api.Core.{Container, ok, Result-cases}
use fms_lm_eval_service.Api.Job.{LmEvalJob}
use fms_lm_eval_service.Text.Decimal.{itoa}
use fms_lm_eval_service.Pod.Options.{
  ServiceOptions, Reconciler, TlsMode, tls_mode_none, tls_mode_tls, tls_mode_mtls,
}
use fms_lm_eval_service.Pod.Build.{create_pod}
use fms_lm_eval_service.Pod.Tls.{SeesEnv, LeavesTls, create_pod-connect_mode}
use fms_lm_eval_service.Driver.Connect.{Transport, connect_mode}
use fms_lm_eval_service.Settings.Start.{
  Listener, get_mtls_server, serve_on, start_grpc_server, grpc_client_ca_env,
}
use fms_lm_eval_service.Settings.Served.{start_grpc_server-cases}

-- Which credentials require a certificate of the client: those of a configuration that says so,
-- and not those made of a certificate and a key alone.
pub record Verifies (T : Listener) (verifies : T.Credentials → Bool) : Type 0 where
  pub mutual_tls_verifies :
      (cert : T.Certificate) (ca : T.Pool) → verifies (T.mutual_tls cert ca) ≡ true
  pub tls_from_file_verifies :
      (cert key : String) (creds : T.Credentials)
      → T.tls_from_file cert key ≡ ok creds
      → verifies creds ≡ false

module _ (T : Listener) (verifies : T.Credentials → Bool) (V : Verifies T verifies) where
  -- The TLS mode that a server with these credentials asks of its clients.
  abbrev pub asked : Option T.Credentials → TlsMode
  asked none = tls_mode_none
  asked (some creds) = if verifies creds then tls_mode_mtls else tls_mode_tls

  serve_on-asked :
      (options : ServiceOptions) (creds server : Option T.Credentials)
      → options.grpc_tls_mode ≡ asked creds
      → (serve_on T options creds).server ≡ some server
      → (serve_on T options creds).options.grpc_tls_mode ≡ asked server
  serve_on-asked options creds server e =
      elim (Option-cases (T.listen (":" <> itoa options.grpc_port))) [
        | inl n ↦ rw (serve_on, n) (λ h. cc (e, h))
        | inr (failure, s) ↦ rw (serve_on, s) (λ h. absurd cc)
      ]

  get_mtls_server-verifies :
      (cert key : String) (creds : T.Credentials)
      → get_mtls_server T cert key ≡ ok creds
      → verifies creds ≡ true
  get_mtls_server-verifies cert key creds =
      unfold get_mtls_server in
      elim (Result-cases (T.load_key_pair cert key)) [
        | inr (e, h) ↦ rw (get_mtls_server, h) (λ x. absurd cc)
        | inl (pair, h) ↦ elim (Result-cases (T.read_file (T.get_string grpc_client_ca_env))) [
          | inr (e, h2) ↦ rw (get_mtls_server, h, h2) (λ x. absurd cc)
          | inl (pem, h2) ↦ elim (Option-cases (T.pool_of_pem pem)) [
            | inl n ↦ rw (get_mtls_server, h, h2, n) (λ x. absurd cc)
            | inr (ca, s) ↦
                rw (get_mtls_server, h, h2, s) (λ x. cc (V.mutual_tls_verifies pair ca, x))
          ]
        ]
      ]

  start_grpc_server-asked :
      (options : ServiceOptions) (server : Option T.Credentials)
      → (start_grpc_server T options).server ≡ some server
      → (start_grpc_server T options).options.grpc_tls_mode ≡ asked server
  start_grpc_server-asked options server =
      start_grpc_server-cases T
        (λ started. started.server ≡ some server → started.options.grpc_tls_mode ≡ asked server)
        options (λ e x. absurd cc)
        (serve_on-asked (record options { grpc_tls_mode = tls_mode_none }) none server refl)
        (λ cert key creds h.
          serve_on-asked (record options { grpc_tls_mode = tls_mode_mtls }) (some creds) server
            (rw (get_mtls_server-verifies cert key creds h)))
        (λ cert key creds h.
          serve_on-asked (record options { grpc_tls_mode = tls_mode_tls }) (some creds) server
            (rw (V.tls_from_file_verifies cert key creds h)))

  -- If the server has been listening, and the secrets of a job leave the variables of the TLS
  -- settings alone, then the driver in the only container of the job's pod connects in the TLS mode
  -- that the server's credentials ask of a client, where its process has the TLS variables from this
  -- container and from nowhere else, and viper takes one of them as set when it is there and not empty.
  pub start_grpc_server-connect_mode :
      (options : ServiceOptions) (server : Option T.Credentials)
      → (start_grpc_server T options).server ≡ some server
      → (r : Reconciler) (job : LmEvalJob) (D : Transport) (environ : String → Option String)
        (c : Container)
      → r.options ≡ (start_grpc_server T options).options
      → (create_pod r job).spec.containers ≡ c ∷ []
      → LeavesTls job.spec.env_secrets
      → SeesEnv D environ c.env
      → connect_mode D ≡ asked server
  start_grpc_server-connect_mode options server listening r job D environ c set main leaves sees =
      create_pod-connect_mode r job D environ c main leaves sees
      ∙ ap (λ o. o.grpc_tls_mode) set
      ∙ start_grpc_server-asked options server listening
