-- ===== src/Settings/Construct.antt =====
-- backend/controller/lmevaljob_controller.go: constructOptionsFromConfigMap, with optionKeys and
-- pullPolicyMap. The walk over the fields by reflection is a walk over a list of settings.
use fms_lm_eval_service.Prelude.{
  String, ◌<>◌, ◌==◌, ◌||◌, Option, none, some, List, [], ◌∷◌, ◌++◌, if◌then◌else◌,
}
use fms_lm_eval_service.Prelude.Int.{ℤ}
use fms_lm_eval_service.Api.Core.{Duration, errorf, Result, ok, err}
use fms_lm_eval_service.Text.ParseInt.{parsed, refused, parse_int}
use fms_lm_eval_service.Pod.Options.{
  ServiceOptions, default_options, pod_image_key, driver_image_key, pod_checking_interval_key,
  image_pull_policy_key, grpc_port_key, grpc_service_key, grpc_server_secret_key,
  grpc_client_secret_key,
}

-- One field of `ServiceOptions` with a key in `optionKeys`: the key, and what a text makes of the
-- field, by its type.
pub record Setting : Type 0 where
  pub key : String
  pub set : String → ServiceOptions → Result ServiceOptions

-- `strconv.Atoi` on a machine of 64 bits
abbrev pub atoi : String → Result ℤ
atoi s = elim (parse_int s) [ parsed z ↦ ok z | refused e ↦ err (errorf "invalid number") ]

abbrev pub pull_policy : String → Result String
pull_policy v =
    if v == "Always" || (v == "Never" || v == "IfNotPresent")
    then ok v
    else err (errorf "invalid PullPolicy")

abbrev pub set_with {ℓ} : {A : Type ℓ} → Result A → (A → ServiceOptions) → Result ServiceOptions
set_with (ok a) put = ok (put a)
set_with (err e) put = err e

-- The settings that were read, with the messages about the invalid ones.
pub record Loaded : Type 0 where
  pub options : ServiceOptions
  pub msgs : List String

abbrev invalid : String → String → String
invalid key v = "invalid setting for " <> key <> ": " <> v <> ", use default setting instead"

abbrev pub store : Loaded → Setting → String → Result ServiceOptions → Loaded
store loaded setting v (ok options) = record loaded { options = options }
store loaded setting v (err e) = record loaded {
  msgs = loaded.msgs ++ (invalid setting.key v ∷ []);
}

abbrev pub read_setting : Loaded → Setting → Option String → Loaded
read_setting loaded setting none = loaded
read_setting loaded setting (some v) = store loaded setting v (setting.set v loaded.options)

-- `parse_duration` is `time.ParseDuration`.
module _ (parse_duration : String → Result Duration) where
  -- In the order of the record's fields; the TLS mode has no key.
  abbrev pub option_keys : List Setting
  option_keys =
      record { key = pod_image_key; set = λ v o. ok (record o { pod_image = v }) }
      ∷ record { key = driver_image_key; set = λ v o. ok (record o { driver_image = v }) }
      ∷ record {
        key = pod_checking_interval_key;
        set = λ v o. set_with (parse_duration v) (λ d. record o { pod_checking_interval = d });
      }
      ∷ record {
        key = image_pull_policy_key;
        set = λ v o. set_with (pull_policy v) (λ p. record o { image_pull_policy = p });
      }
      ∷ record {
        key = grpc_port_key;
        set = λ v o. set_with (atoi v) (λ n. record o { grpc_port = n });
      }
      ∷ record { key = grpc_service_key; set = λ v o. ok (record o { grpc_service = v }) }
      ∷ record {
        key = grpc_server_secret_key;
        set = λ v o. ok (record o { grpc_server_secret = v });
      }
      ∷ record {
        key = grpc_client_secret_key;
        set = λ v o. ok (record o { grpc_client_secret = v });
      }
      ∷ []

  abbrev pub read_settings : (String → Option String) → List Setting → Loaded → Loaded
  read_settings config [] loaded = loaded
  read_settings config (setting ∷ settings) loaded =
      read_settings config settings (read_setting loaded setting (config setting.key))

  -- The settings for the data of a config map, and the messages that are logged. Every field with a
  -- key has a type that is handled, so no error is returned.
  unfoldable pub construct_options : (String → Option String) → Loaded
  construct_options config =
      read_settings config option_keys (record { options = default_options; msgs = [] })
