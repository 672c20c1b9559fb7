-- ===== src/Settings/Laws.antt =====
-- What the settings are for a config map (constructOptionsFromConfigMap).
use fms_lm_eval_service.Prelude.{String, ◌≡◌, refl, sym, ◌∙◌, ap, Option, none, some, inl, inr}
use fms_lm_eval_service.Api.Core.{Duration, Result, ok, err, Result-cases}
use fms_lm_eval_service.Pod.Options.{ServiceOptions, default_options}
use fms_lm_eval_service.Settings.Construct.{
  Loaded, atoi, pull_policy, set_with, read_setting, construct_options,
}

abbrev or_default {ℓ} : {A : Type ℓ} → A → Result A → A
or_default default (ok a) = a
or_default default (err e) = default

-- The value of one setting: what its text means, or the default if it is absent or invalid.
abbrev pub value_or {ℓ} : {A : Type ℓ} → A → (String → Result A) → Option String → A
value_or default parse none = default
value_or default parse (some v) = or_default default (parse v)

-- Reading a setting behind options `o` changes one field of them.
read_setting-options :
    {A : Type 0} (parse : String → Result A) (put : A → ServiceOptions → ServiceOptions)
    (get : ServiceOptions → A) (key : String)
    → ((o : ServiceOptions) → put (get o) o ≡ o)
    → (loaded : Loaded) (o : ServiceOptions) (text : Option String) → loaded.options ≡ o
    → (read_setting loaded
        (record { key = key; set = λ v o. set_with (parse v) (λ a. put a o) })
        text).options
      ≡ put (value_or (get o) parse text) o
read_setting-options parse put get key law loaded o none e = e ∙ sym (law o)
read_setting-options parse put get key law loaded o (some v) e = elim (Result-cases (parse v)) [
  | inl (a, h) ↦ rw h (ap (put a) e)
  | inr (failure, h) ↦ rw h (e ∙ sym (law o))
]

module _ (parse_duration : String → Result Duration) (config : String → Option String) where
  -- Each field of the settings is what its entry in the config map means, or the field's default if
  -- the entry is absent or invalid, whatever the other entries are.
  pub construct_options-fields : (construct_options parse_duration config).options ≡ record {
    pod_image = value_or default_options.pod_image ok (config "pod-image");
    driver_image = value_or default_options.driver_image ok (config "driver-image");
    pod_checking_interval =
        value_or default_options.pod_checking_interval parse_duration
          (config "pod-checking-interval");
    image_pull_policy =
        value_or default_options.image_pull_policy pull_policy (config "image-pull-policy");
    grpc_port = value_or default_options.grpc_port atoi (config "grpc-port");
    grpc_service = value_or default_options.grpc_service ok (config "grpc-service");
    grpc_server_secret =
        value_or default_options.grpc_server_secret ok (config "grpc-server-secret");
    grpc_client_secret =
        value_or default_options.grpc_client_secret ok (config "grpc-client-secret");
    grpc_tls_mode = default_options.grpc_tls_mode;
  }
  unfolding construct_options
  construct_options-fields =
      read_setting-options ok (λ v o. record o { grpc_client_secret = v })
        (λ o. o.grpc_client_secret) "grpc-client-secret" (λ o. refl) _ _
        (config "grpc-client-secret")
        (read_setting-options ok (λ v o. record o { grpc_server_secret = v })
          (λ o. o.grpc_server_secret) "grpc-server-secret" (λ o. refl) _ _
          (config "grpc-server-secret")
          (read_setting-options ok (λ v o. record o { grpc_service = v }) (λ o. o.grpc_service)
            "grpc-service" (λ o. refl) _ _ (config "grpc-service")
            (read_setting-options atoi (λ v o. record o { grpc_port = v }) (λ o. o.grpc_port)
              "grpc-port" (λ o. refl) _ _ (config "grpc-port")
              (read_setting-options pull_policy (λ v o. record o { image_pull_policy = v })
                (λ o. o.image_pull_policy) "image-pull-policy" (λ o. refl) _ _
                (config "image-pull-policy")
                (read_setting-options parse_duration (λ v o. record o { pod_checking_interval = v })
                  (λ o. o.pod_checking_interval) "pod-checking-interval" (λ o. refl) _ _
                  (config "pod-checking-interval")
                  (read_setting-options ok (λ v o. record o { driver_image = v })
                    (λ o. o.driver_image) "driver-image" (λ o. refl) _ _ (config "driver-image")
                    (read_setting-options ok (λ v o. record o { pod_image = v }) (λ o. o.pod_image)
                      "pod-image" (λ o. refl) _ _ (config "pod-image") refl)))))))
