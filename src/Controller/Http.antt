-- ===== src/Controller/Http.antt =====
-- The TLS settings of the controller's servers (disableHTTP2 and tlsOpts of cmd/controller/main.go).
use fms_lm_eval_service.Prelude.{
  ℕ, String, ◌==◌, ◌≡◌, ◌≢◌, refl, sym, subst, Bool, true, false, Option, List, [], ◌∷◌, All,
  eq_iff,
}
use fms_lm_eval_service.Api.Core.{Duration, Result, NamespacedName}
use fms_lm_eval_service.Text.Flag.{stopped}
use fms_lm_eval_service.Text.FlagFrame.{
  Spares, KeepsSome, if-KeepsSome, string_flag-KeepsSome, bool_flag-KeepsSome, log_formal-KeepsSome,
  parse_flags-keeps,
}
use fms_lm_eval_service.Text.LogFlag.{LogFlag}
use fms_lm_eval_service.Cluster.Interface.{Kube}
use fms_lm_eval_service.Pod.Options.{ServiceOptions}
use fms_lm_eval_service.Settings.Start.{Listener}
use fms_lm_eval_service.Controller.Manage.{TlsConfig, ManagerOptions, Runtime, IsRuntime, Setup}
use fms_lm_eval_service.Controller.Flags.{
  ControllerFlags, controller_flags, parse_controller_flags, default_controller_flags,
}
use fms_lm_eval_service.Controller.Main.{ran, controller_main, manager_options, tls_opts}
use fms_lm_eval_service.Controller.Duties.{main-duties}

abbrev pub NoHttp2 : ControllerFlags → Type 0
NoHttp2 flags = flags.enable_http2 ≡ false

module _ (zap : String → Option LogFlag) where
  controller_flags-KeepsSome :
      (name : String) → name ≢ "enable-http2" → KeepsSome NoHttp2 (controller_flags zap name)
  controller_flags-KeepsSome name other =
      let either = if-KeepsSome NoHttp2 in
      let text = string_flag-KeepsSome NoHttp2 in
      unfold controller_flags in
      either (name == "metrics-bind-address") _ _ (λ is. text _ (λ v s h. h))
        (either (name == "health-probe-bind-address") _ _ (λ is. text _ (λ v s h. h))
          (either (name == "leader-elect") _ _ (λ is. bool_flag-KeepsSome NoHttp2 _ (λ b s h. h))
            (either (name == "metrics-secure") _ _
              (λ is. bool_flag-KeepsSome NoHttp2 _ (λ b s h. h))
              (either (name == "enable-http2") _ _
                (λ is. absurd (other ((eq_iff name "enable-http2").0 is)))
                (either (name == "configmap") _ _ (λ is. text _ (λ v s h. h))
                  (either (name == "namespace") _ _ (λ is. text _ (λ v s h. h))
                    (log_formal-KeepsSome NoHttp2 (zap name))))))))

  parse_controller_flags-NoHttp2 :
      (args : List String) (flags : ControllerFlags) (rest : List String)
      → All (Spares "enable-http2") args
      → parse_controller_flags zap args ≡ stopped flags rest
      → NoHttp2 flags
  unfolding parse_controller_flags
  parse_controller_flags-NoHttp2 args flags rest spared e =
      parse_flags-keeps (controller_flags zap) NoHttp2 "enable-http2"
        (λ other f ne found. controller_flags-KeepsSome other ne f found) args
        default_controller_flags flags rest spared e refl

-- The settings of a server after the functions of its options, in their order.
abbrev pub apply_all : List (TlsConfig → TlsConfig) → TlsConfig → TlsConfig
apply_all [] c = c
apply_all (f ∷ fs) c = apply_all fs (f c)

abbrev pub OnlyHttp1 : ManagerOptions → TlsConfig → Type 0
OnlyHttp1 o c =
    ((apply_all o.metrics_tls_opts c).next_protos ≡ "http/1.1" ∷ [])
    × ((apply_all o.webhook_tls_opts c).next_protos ≡ "http/1.1" ∷ [])

tls_opts-off :
    (b : Bool) (c : TlsConfig)
    → b ≡ false
    → (apply_all (tls_opts b) c).next_protos ≡ "http/1.1" ∷ []
tls_opts-off true c e = absurd cc
tls_opts-off false c e = refl

manager_options-OnlyHttp1 :
    (flags : ControllerFlags)
    → NoHttp2 flags
    → (c : TlsConfig) → OnlyHttp1 (manager_options flags) c
manager_options-OnlyHttp1 flags off c =
    (tls_opts-off flags.enable_http2 c off, tls_opts-off flags.enable_http2 c off)

-- If the process starts a manager and no argument names the flag enable-http2, then the options that
-- the manager has leave the metrics server and the webhook server HTTP/1.1 only, whatever their
-- settings are before.
pub main-no_http2 :
    (K : Kube) (T : Listener) (parse_duration : String → Result Duration)
    (get_config_map : K.Server → NamespacedName → Result (String → Option String))
    (unset : ServiceOptions) (enable_webhooks : String) (C : Runtime (Setup K T)) (L : IsRuntime C)
    (zap : String → Option LogFlag) (args : List String) (m : C.Manager) (n : ℕ)
    → controller_main K T parse_duration get_config_map unset C enable_webhooks zap args ≡ ran m n
    → All (Spares "enable-http2") args
    → (c : TlsConfig)
    → ((apply_all (L.options m).metrics_tls_opts c).next_protos ≡ "http/1.1" ∷ [])
      × ((apply_all (L.options m).webhook_tls_opts c).next_protos ≡ "http/1.1" ∷ [])
main-no_http2 K T parse_duration get_config_map unset enable_webhooks C L zap args m n e spared c =
    let (flags, rest, read, options, registered, code) =
      main-duties K T parse_duration get_config_map unset enable_webhooks C L zap args m n e in
    let off = parse_controller_flags-NoHttp2 zap args flags rest spared read in
    subst (λ o. OnlyHttp1 o c) (sym options) (manager_options-OnlyHttp1 flags off c)
