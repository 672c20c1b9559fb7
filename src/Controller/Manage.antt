-- ===== src/Controller/Manage.antt =====
-- backend/controller/lmevaljob_controller.go: SetupWithManager; api/v1beta1/lmevaljob_webhook.go:
-- SetupWebhookWithManager. The manager of controller-runtime is a parameter.
use fms_lm_eval_service.Prelude.{String, ◌≡◌, Bool, false, Option, none, some, List, [], ◌∷◌, ◌++◌}
use fms_lm_eval_service.Api.Core.{Duration, Error, Result, ok, NamespacedName}
use fms_lm_eval_service.Cluster.Interface.{Kube}
use fms_lm_eval_service.Pod.Options.{Reconciler}
use fms_lm_eval_service.Settings.Start.{Listener, Started, run_setup}

-- `tls.Config`, less the fields that the code leaves alone.
pub record TlsConfig : Type 0 where
  pub next_protos : List String

-- `ctrl.Options`, with those of the webhook server in it, less the scheme.
pub record ManagerOptions : Type 0 where
  pub metrics_bind_address : String
  pub secure_serving : Bool
  pub metrics_tls_opts : List (TlsConfig → TlsConfig)
  pub webhook_tls_opts : List (TlsConfig → TlsConfig)
  pub health_probe_bind_address : String
  pub leader_election : Bool
  pub leader_election_id : String

-- `predicate.Funcs`: what each function answers, where there is one. All of them are constant.
pub record Funcs : Type 0 where
  pub create_func : Option Bool
  pub delete_func : Option Bool
  pub update_func : Option Bool
  pub generic_func : Option Bool

-- What is given to a manager. A controller has the predicates on the jobs, which it is for, and on
-- the pods that a job owns, which it watches.
pub data Registration {ℓ} (R : Type ℓ) : Type ℓ where
  runnable : R → Registration R
  controller : Reconciler → Funcs → Funcs → Registration R
  job_webhooks : Registration R
  healthz_check readyz_check : String → Registration R

-- controller-runtime, as the controller uses it. `register` is `Add`, `AddHealthzCheck` and
-- `AddReadyzCheck` of a manager and `Complete` of the builders; `start` gives the error with which
-- the manager ends.
pub record Runtime {ℓ} (R : Type ℓ) : Type (ℓ + 1) where
  pub Config : Type ℓ
  pub Manager : Type ℓ
  pub get_config : Result Config
  pub new_manager : Config → ManagerOptions → Result Manager
  pub register : Manager → Registration R → Manager × Option Error
  pub start : Manager → Option Error

-- What a manager has been given: its options, and what was registered without an error.
pub record IsRuntime {ℓ} {R : Type ℓ} (C : Runtime R) : Type ℓ where
  pub options : C.Manager → ManagerOptions
  pub registered : C.Manager → List (Registration R)
  pub new_manager_options :
      (config : C.Config) (o : ManagerOptions) (m : C.Manager)
      → C.new_manager config o ≡ ok m
      → (options m ≡ o) × (registered m ≡ [])
  pub register_added :
      (m : C.Manager) (x : Registration R)
      → (C.register m x).1 ≡ none
      → (options (C.register m x).0 ≡ options m)
        × (registered (C.register m x).0 ≡ registered m ++ (x ∷ []))

-- Drop deletion events.
abbrev pub job_funcs : Funcs
job_funcs = record {
  create_func = none;
  delete_func = some false;
  update_func = none;
  generic_func = none;
}

-- Drop all events except deletion.
abbrev pub pod_funcs : Funcs
pod_funcs = record {
  create_func = some false;
  delete_func = none;
  update_func = some false;
  generic_func = some false;
}

-- The next step, if this one has no error.
abbrev pub and_then {ℓ} :
    {M : Type ℓ} → M × Option Error → (M → M × Option Error) → M × Option Error
and_then (m, none) next = next m
and_then (m, some e) next = (m, some e)

-- What the runnable does on a server of the API.
abbrev pub Setup : Kube → Listener → Type 0
Setup K T = K.Server → Result (Started T.Credentials)

module _ (K : Kube) (T : Listener) (parse_duration : String → Result Duration)
    (get_config_map : K.Server → NamespacedName → Result (String → Option String))
    (C : Runtime (Setup K T)) where
  unfoldable pub setup_with_manager : Reconciler → C.Manager → C.Manager × Option Error
  setup_with_manager r mgr =
      and_then (C.register mgr (runnable (λ s. run_setup K T parse_duration get_config_map s r)))
        (λ mgr. C.register mgr (controller r job_funcs pod_funcs))

module _ {ℓ} {R : Type ℓ} (C : Runtime R) where
  abbrev pub setup_webhook_with_manager : C.Manager → C.Manager × Option Error
  setup_webhook_with_manager mgr = C.register mgr job_webhooks
