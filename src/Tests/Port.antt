-- ===== src/Tests/Port.antt =====
-- The theorems about the port of the settings, with the settings and the server of Tests/Settings.
use fms_lm_eval_service.Prelude.{
  String, ◌<>◌, [], ◌∷◌, ◌++◌, ◌≡◌, ◌≢◌, refl, true, none, some, Option,
}
use fms_lm_eval_service.Prelude.Int.{pos}
use fms_lm_eval_service.Text.Flag.{stopped}
use fms_lm_eval_service.Text.LogFlag.{LogFlag}
use fms_lm_eval_service.Text.ParseInt.{parse_int, parse_uint, parse_digits}
use fms_lm_eval_service.Text.ReadBack.{InInt64}
use fms_lm_eval_service.Pod.Options.{Reconciler}
use fms_lm_eval_service.Pod.Command.{generate_cmd}
use fms_lm_eval_service.Driver.Connect.{connect_mode, client_of, get_grpc_client_conn}
use fms_lm_eval_service.Driver.Main.{Flags, driver_option}
use fms_lm_eval_service.Driver.Process.{parse_command_line}
use fms_lm_eval_service.Driver.CommandLine.{arguments}
use fms_lm_eval_service.Settings.Construct.{construct_options}
use fms_lm_eval_service.Settings.Start.{start_grpc_server, get_mtls_server}
use fms_lm_eval_service.Settings.Port.{construct_options-port, start_grpc_server-dialled}
use fms_lm_eval_service.Tests.Data.{job, reconciler}
use fms_lm_eval_service.Tests.Pod.{transport}
use fms_lm_eval_service.Tests.Settings.{config, no_duration, listener}

construct_options-port_example : InInt64 (construct_options no_duration config).options.grpc_port
construct_options-port_example = construct_options-port no_duration config

-- The controller with the settings that the server leaves.
abbrev ready : Reconciler
ready = record reconciler {
  options = (start_grpc_server listener (construct_options no_duration config).options).options;
}

ready-port : ready.options.grpc_port ≡ pos 9090
unfolding construct_options start_grpc_server get_mtls_server parse_int parse_uint parse_digits
ready-port = refl

not_zero : ready.options.grpc_port ≢ pos 0
not_zero e = cc (ready-port, e)

abbrev zap : String → Option LogFlag
zap name = none

start_grpc_server-dialled_example :
    (port : String) × (flags : Flags) × (listener.listen (":" <> port) ≡ none)
    × (parse_command_line zap (arguments (generate_cmd ready job) ++ ("sh" ∷ "-ec" ∷ []))
        ≡ stopped flags ("sh" ∷ "-ec" ∷ []))
    × (get_grpc_client_conn
          (transport [])
          (driver_option (record flags { args = "sh" ∷ "-ec" ∷ [] }))
        ≡ client_of
            (transport [])
            (connect_mode (transport []))
            ((ready.options.grpc_service <> "." <> "test" <> ".svc") <> ":" <> port))
unfolding start_grpc_server get_mtls_server
start_grpc_server-dialled_example =
    start_grpc_server-dialled (transport []) listener no_duration config (some true) refl ready refl
      not_zero zap job ("sh" ∷ "-ec" ∷ [])
