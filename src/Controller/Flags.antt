-- ===== src/Controller/Flags.antt =====
-- cmd/controller/main.go: the flags it defines, and their values.
use fms_lm_eval_service.Prelude.{String, ◌==◌, Bool, false, Option, some, List, if◌then◌else◌}
use fms_lm_eval_service.Text.Flag.{Formal, Parse, string_flag, bool_flag, parse_flags}
use fms_lm_eval_service.Text.LogFlag.{LogFlag, log_formal}

-- The variables of `main` that flags set.
pub record ControllerFlags : Type 0 where
  pub metrics_addr : String
  pub enable_leader_election : Bool
  pub probe_addr : String
  pub secure_metrics : Bool
  pub enable_http2 : Bool
  pub config_map : String
  pub namespace : String

abbrev pub default_controller_flags : ControllerFlags
default_controller_flags = record {
  metrics_addr = "0";
  enable_leader_election = false;
  probe_addr = ":8081";
  secure_metrics = false;
  enable_http2 = false;
  config_map = "lm-eval-service";
  namespace = "lm-eval-aas";
}

-- `zap` gives the flags that zap defines, by name.
module _ (zap : String → Option LogFlag) where
  unfoldable pub controller_flags : String → Option (Formal ControllerFlags)
  controller_flags name =
      if name == "metrics-bind-address"
      then some (string_flag (λ v s. record s { metrics_addr = v }))
      else if name == "health-probe-bind-address"
      then some (string_flag (λ v s. record s { probe_addr = v }))
      else if name == "leader-elect"
      then some (bool_flag (λ b s. record s { enable_leader_election = b }))
      else if name == "metrics-secure"
      then some (bool_flag (λ b s. record s { secure_metrics = b }))
      else if name == "enable-http2"
      then some (bool_flag (λ b s. record s { enable_http2 = b }))
      else if name == "configmap"
      then some (string_flag (λ v s. record s { config_map = v }))
      else if name == "namespace"
      then some (string_flag (λ v s. record s { namespace = v }))
      else log_formal (zap name)

  unfoldable pub parse_controller_flags : List String → Parse ControllerFlags
  unfolding controller_flags
  parse_controller_flags args = parse_flags controller_flags args default_controller_flags
