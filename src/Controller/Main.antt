-- ===== src/Controller/Main.antt =====
-- cmd/controller/main.go: main. Log lines are left out, and so are the schemes, which init fills.
use fms_lm_eval_service.Prelude.{
  ℕ, String, ◌==◌, Bool, not, Option, none, some, List, [], ◌∷◌, if◌then◌else◌,
}
use fms_lm_eval_service.Api.Core.{Duration, Error, Result, ok, err, NamespacedName}
use fms_lm_eval_service.Text.Flag.{Parse, stopped, helped, failed}
use fms_lm_eval_service.Text.LogFlag.{LogFlag}
use fms_lm_eval_service.Cluster.Interface.{Kube}
use fms_lm_eval_service.Pod.Options.{ServiceOptions, Reconciler}
use fms_lm_eval_service.Settings.Start.{Listener}
use fms_lm_eval_service.Controller.Manage.{
  TlsConfig, ManagerOptions, Runtime, healthz_check, readyz_check, Setup, setup_with_manager,
  setup_webhook_with_manager,
}
use fms_lm_eval_service.Controller.Flags.{ControllerFlags, parse_controller_flags}

abbrev pub disable_http2 : TlsConfig → TlsConfig
disable_http2 c = record c { next_protos = "http/1.1" ∷ [] }

abbrev pub tls_opts : Bool → List (TlsConfig → TlsConfig)
tls_opts enable_http2 = if not enable_http2 then disable_http2 ∷ [] else []

abbrev pub manager_options : ControllerFlags → ManagerOptions
manager_options flags = record {
  metrics_bind_address = flags.metrics_addr;
  secure_serving = flags.secure_metrics;
  metrics_tls_opts = tls_opts flags.enable_http2;
  webhook_tls_opts = tls_opts flags.enable_http2;
  health_probe_bind_address = flags.probe_addr;
  leader_election = flags.enable_leader_election;
  leader_election_id = "1c0f8960.github.com";
}

-- `unset` stands for the settings before the runnable stores them: a nil pointer.
abbrev pub ctor : ServiceOptions → ControllerFlags → Reconciler
ctor unset flags = record {
  config_map = flags.config_map;
  namespace = flags.namespace;
  options = unset;
}

-- How the process ends: with an exit code before a manager is started, or with that of the manager
-- that was started.
pub data Ended {ℓ} (M : Type ℓ) : Type ℓ where
  exited_early : ℕ → Ended M
  ran : M → ℕ → Ended M

-- `os.Exit(1)` on an error.
abbrev pub attempt {ℓ} : {M : Type ℓ} → M × Option Error → (M → Ended M) → Ended M
attempt (mgr, none) next = next mgr
attempt (mgr, some e) next = exited_early 1

abbrev pub end_code : Option Error → ℕ
end_code none = 0
end_code (some e) = 1

-- `enable_webhooks` is the variable ENABLE_WEBHOOKS of the environment.
module _ (K : Kube) (T : Listener) (parse_duration : String → Result Duration)
    (get_config_map : K.Server → NamespacedName → Result (String → Option String))
    (unset : ServiceOptions) (C : Runtime (Setup K T)) (enable_webhooks : String) where
  -- From the health check on.
  abbrev pub check_and_start : C.Manager → Ended C.Manager
  check_and_start mgr = attempt (C.register mgr (healthz_check "healthz")) (λ mgr.
      attempt (C.register mgr (readyz_check "readyz")) (λ mgr. ran mgr (end_code (C.start mgr))))

  -- From the controller's setup on.
  abbrev pub manage : ControllerFlags → C.Manager → Ended C.Manager
  manage flags mgr =
      attempt (setup_with_manager K T parse_duration get_config_map C (ctor unset flags) mgr)
        (λ mgr.
          if not (enable_webhooks == "false")
          then attempt (setup_webhook_with_manager C mgr) check_and_start
          else check_and_start mgr)

  abbrev pub with_manager : ControllerFlags → Result C.Manager → Ended C.Manager
  with_manager flags (err e) = exited_early 1
  with_manager flags (ok mgr) = manage flags mgr

  abbrev pub with_config : ControllerFlags → Result C.Config → Ended C.Manager
  with_config flags (err e) = exited_early 1
  with_config flags (ok config) = with_manager flags (C.new_manager config (manager_options flags))

  abbrev pub main_with : ControllerFlags → Ended C.Manager
  main_with flags = with_config flags C.get_config

  -- `flag.CommandLine` ends the process with 0 after the help text, and with 2 on an error. The
  -- arguments behind the flags are not looked at.
  abbrev pub main_parsed : Parse ControllerFlags → Ended C.Manager
  main_parsed (stopped flags rest) = main_with flags
  main_parsed helped = exited_early 0
  main_parsed failed = exited_early 2

  unfoldable pub controller_main : (String → Option LogFlag) → List String → Ended C.Manager
  controller_main zap args = main_parsed (parse_controller_flags zap args)
