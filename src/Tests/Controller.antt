-- ===== src/Tests/Controller.antt =====
-- The theorems about the controller's command at a manager in memory.
use fms_lm_eval_service.Prelude.{
  String, ◌≡◌, refl, Bool, true, Option, none, some, List, [], ◌∷◌, ◌++◌, str_ne, All, ap,
}
use fms_lm_eval_service.Api.Core.{ok}
use fms_lm_eval_service.Text.Flag.{stopped, word_of, cut_value, parse_loop, parse_flags}
use fms_lm_eval_service.Text.FlagFrame.{Spares}
use fms_lm_eval_service.Text.LogFlag.{LogFlag}
use fms_lm_eval_service.Pod.Options.{default_options}
use fms_lm_eval_service.Settings.Start.{run_setup}
use fms_lm_eval_service.Cluster.Memory.{memory}
use fms_lm_eval_service.Controller.Manage.{
  ManagerOptions, Registration, runnable, controller, healthz_check, readyz_check, Runtime,
  IsRuntime, Setup, job_funcs, pod_funcs, setup_with_manager, Funcs,
}
use fms_lm_eval_service.Controller.Flags.{
  ControllerFlags, default_controller_flags, controller_flags, parse_controller_flags,
}
use fms_lm_eval_service.Controller.Main.{
  Ended, ran, ctor, manager_options, controller_main, end_code,
}
use fms_lm_eval_service.Controller.Duties.{duties, main-duties}
use fms_lm_eval_service.Controller.Http.{main-no_http2, apply_all}
use fms_lm_eval_service.Controller.Wake.{Occurrence, func_of, IsPredicate, Wakes, main-Wakes}
use fms_lm_eval_service.Tests.Settings.{listener, no_duration, config_map}

-- A manager is its options and what it has been given.
abbrev Manager : Type 0
Manager = ManagerOptions × List (Registration (Setup memory listener))

abbrev manager_runtime : Runtime (Setup memory listener)
manager_runtime = record {
  Config = Unit;
  Manager = Manager;
  get_config = ok tt;
  new_manager = λ config o. ok (o, []);
  register = λ m x. ((m.0, m.1 ++ (x ∷ [])), none);
  start = λ m. none;
}

abbrev manager_laws : IsRuntime manager_runtime
manager_laws = record {
  options = λ m. m.0;
  registered = λ m. m.1;
  new_manager_options = λ config o m e. (cc, cc);
  register_added = λ m x e. (refl, refl);
}

abbrev zap : String → Option LogFlag
zap name = none

-- The webhooks are off.
abbrev arguments : List String
arguments = "--leader-elect" ∷ "--metrics-bind-address" ∷ ":8080" ∷ "-namespace=eval" ∷ []

abbrev flags : ControllerFlags
flags = record default_controller_flags {
  enable_leader_election = true;
  metrics_addr = ":8080";
  namespace = "eval";
}

abbrev started : Ended Manager
started =
    controller_main memory listener no_duration config_map default_options manager_runtime "false"
      zap arguments

abbrev given : List (Registration (Setup memory listener))
given =
    let r = ctor default_options flags in
    runnable (λ s. run_setup memory listener no_duration config_map s r)
    ∷ controller r job_funcs pod_funcs
    ∷ healthz_check "healthz"
    ∷ readyz_check "readyz"
    ∷ []

abbrev manager : Manager
manager = (manager_options flags, given)

started-runs : started ≡ ran manager 0
unfolding controller_main parse_controller_flags parse_flags parse_loop word_of cut_value
    controller_flags setup_with_manager
started-runs = refl

main-duties_example :
    (read : ControllerFlags) × (rest : List String) × (parse_controller_flags zap arguments
      ≡ stopped read rest)
    × (manager_options flags ≡ manager_options read)
    × (given ≡ duties memory listener no_duration config_map default_options "false" read)
    × (0 ≡ end_code none)
main-duties_example =
    main-duties memory listener no_duration config_map default_options "false" manager_runtime
      manager_laws zap arguments manager 0 started-runs

arguments-Spares : All (Spares "enable-http2") arguments
unfolding word_of cut_value
arguments-Spares = (
  (λ value h. str_ne "leader-elect" "enable-http2" refl cc),
  (
    (λ value h. str_ne "metrics-bind-address" "enable-http2" refl cc),
    ((λ value h. cc), ((λ value h. str_ne "namespace" "enable-http2" refl cc), tt)),
  ),
)

main-no_http2_example :
    ((apply_all
        (manager_options flags).metrics_tls_opts
        (record { next_protos = "h2" ∷ [] })).next_protos
      ≡ "http/1.1" ∷ [])
    × ((apply_all
          (manager_options flags).webhook_tls_opts
          (record { next_protos = "h2" ∷ [] })).next_protos
        ≡ "http/1.1" ∷ [])
main-no_http2_example =
    main-no_http2 memory listener no_duration config_map default_options "false" manager_runtime
      manager_laws zap arguments manager 0 started-runs arguments-Spares
      (record { next_protos = "h2" ∷ [] })

abbrev answer : Option Bool → Bool
answer none = true
answer (some b) = b

abbrev handles : Funcs → Occurrence → Bool
handles p o = answer (func_of p o)

handles-IsPredicate : IsPredicate handles
handles-IsPredicate = record { has_func = λ p o b e. ap answer e; no_func = λ p o e. ap answer e }

main-Wakes_example : All (Wakes handles) given
main-Wakes_example =
    main-Wakes handles handles-IsPredicate memory listener no_duration config_map default_options
      "false" manager_runtime manager_laws zap arguments manager 0 started-runs
