-- ===== src/Settings/Secrets.antt =====
-- The secrets that the runnable of SetupWithManager asks for (checkSecrets).
use fms_lm_eval_service.Prelude.{
  String, true, ◌≡◌, refl, Option, none, inl, inr, Bool-cases, Option-cases,
}
use fms_lm_eval_service.Api.Core.{Duration, Result, ok, Result-cases, NamespacedName}
use fms_lm_eval_service.Cluster.Interface.{Kube}
use fms_lm_eval_service.Pod.Options.{Reconciler}
use fms_lm_eval_service.Settings.Construct.{construct_options}
use fms_lm_eval_service.Settings.Start.{
  Listener, Started, check_secrets, is_secret_exists, is_tls_set, run_setup, start_grpc_server,
}

module _ (K : Kube) (s : K.Server) where
  check_secrets-exist :
      (r : Reconciler)
      → check_secrets K s r ≡ none
      → (is_secret_exists K s r r.options.grpc_server_secret ≡ true)
        × (is_secret_exists K s r r.options.grpc_client_secret ≡ true)
  check_secrets-exist r =
      unfold check_secrets in
      elim (Bool-cases (is_secret_exists K s r r.options.grpc_server_secret)) [
        | inr gone ↦ rw (check_secrets, gone) (λ x. absurd cc)
        | inl server ↦ elim (Bool-cases (is_secret_exists K s r r.options.grpc_client_secret)) [
          | inr gone ↦ rw (check_secrets, server, gone) (λ x. absurd cc)
          | inl client ↦ rw (server, client) (λ x. (refl, refl))
        ]
      ]

  module _ (T : Listener) (parse_duration : String → Result Duration)
      (get_config_map : K.Server → NamespacedName → Result (String → Option String)) where
    -- If one of the variables of the server's TLS settings is set and the runnable does not fail,
    -- then the server has been started with the settings of the config map, and both of the secrets
    -- that these name are in the controller's namespace.
    pub run_setup-secrets :
        (r : Reconciler) (started : Started T.Credentials)
        → is_tls_set K T parse_duration get_config_map ≡ true
        → run_setup K T parse_duration get_config_map s r ≡ ok started
        → (config : String → Option String) × (get_config_map s
              (record { namespace = r.namespace; name = r.config_map })
            ≡ ok config)
          × let options = (construct_options parse_duration config).options in
            (started ≡ start_grpc_server T options)
            × (is_secret_exists K s r options.grpc_server_secret ≡ true)
            × (is_secret_exists K s r options.grpc_client_secret ≡ true)
    run_setup-secrets r started tls =
        unfold run_setup in
        elim (Result-cases
          (get_config_map s (record { namespace = r.namespace; name = r.config_map }))) [
            | inr (e, h) ↦ rw (run_setup, h) (λ x. absurd cc)
            | inl (config, h) ↦
                let r' = record r { options = (construct_options parse_duration config).options } in
                elim (Option-cases (check_secrets K s r')) [
                  | inl n ↦
                      let (server, client) = check_secrets-exist r' n in
                      rw (run_setup, h, n) (λ x. (config, refl, (cc, server, client)))
                  | inr (e, f) ↦ rw (run_setup, h, f, tls) (λ x. absurd cc)
                ]
          ]
