-- ===== src/Controller/Wake.antt =====
-- Which events make the controller reconcile a job: the predicates of SetupWithManager. What
-- `predicate.Funcs` does with them is a parameter.
use fms_lm_eval_service.Prelude.{
  ℕ, String, ◌==◌, ◌≡◌, refl, sym, subst, Bool, true, false, not, Option, none, some, List, [], ◌∷◌,
  ◌++◌, All, if◌then◌else◌,
}
use fms_lm_eval_service.Api.Core.{Duration, Result, NamespacedName}
use fms_lm_eval_service.Text.LogFlag.{LogFlag}
use fms_lm_eval_service.Cluster.Interface.{Kube}
use fms_lm_eval_service.Pod.Options.{ServiceOptions}
use fms_lm_eval_service.Settings.Start.{Listener}
use fms_lm_eval_service.Controller.Manage.{
  Funcs, Registration, runnable, controller, job_webhooks, healthz_check, readyz_check, Runtime,
  IsRuntime, Setup, job_funcs, pod_funcs,
}
use fms_lm_eval_service.Controller.Flags.{ControllerFlags}
use fms_lm_eval_service.Controller.Main.{ran, controller_main}
use fms_lm_eval_service.Controller.Duties.{duties, main-duties}

-- The events of controller-runtime's package event.
pub data Occurrence : Type 0 where
  on_create on_delete on_update on_generic : Occurrence

abbrev pub func_of : Funcs → Occurrence → Option Bool
func_of p on_create = p.create_func
func_of p on_delete = p.delete_func
func_of p on_update = p.update_func
func_of p on_generic = p.generic_func

-- `predicate.Funcs` answers as its function does, and with true where there is none.
pub record IsPredicate (handles : Funcs → Occurrence → Bool) : Type 0 where
  pub has_func : (p : Funcs) (o : Occurrence) (b : Bool) → func_of p o ≡ some b → handles p o ≡ b
  pub no_func : (p : Funcs) (o : Occurrence) → func_of p o ≡ none → handles p o ≡ true

abbrev pub is_delete : Occurrence → Bool
is_delete on_create = false
is_delete on_delete = true
is_delete on_update = false
is_delete on_generic = false

module _ (handles : Funcs → Occurrence → Bool) where
  -- A controller hears of every event of a job but its deletion, and of a job's pod the deletion only.
  abbrev pub Wakes {ℓ} : {R : Type ℓ} → Registration R → Type 0
  Wakes (controller r on_job on_pod) =
      (o : Occurrence) → (handles on_job o ≡ not (is_delete o)) × (handles on_pod o ≡ is_delete o)
  Wakes (runnable f) = Unit
  Wakes job_webhooks = Unit
  Wakes (healthz_check name) = Unit
  Wakes (readyz_check name) = Unit

  module _ (lawful : IsPredicate handles) where
    controller-Wakes :
        (o : Occurrence)
        → (handles job_funcs o ≡ not (is_delete o)) × (handles pod_funcs o ≡ is_delete o)
    controller-Wakes on_create =
        (lawful.no_func job_funcs on_create refl, lawful.has_func pod_funcs on_create false refl)
    controller-Wakes on_delete =
        (lawful.has_func job_funcs on_delete false refl, lawful.no_func pod_funcs on_delete refl)
    controller-Wakes on_update =
        (lawful.no_func job_funcs on_update refl, lawful.has_func pod_funcs on_update false refl)
    controller-Wakes on_generic =
        (lawful.no_func job_funcs on_generic refl, lawful.has_func pod_funcs on_generic false refl)

    module _ (K : Kube) (T : Listener) (parse_duration : String → Result Duration)
        (get_config_map : K.Server → NamespacedName → Result (String → Option String))
        (unset : ServiceOptions) (enable_webhooks : String) where
      webhook_duty-Wakes :
          (off : Bool) (rest : List (Registration (Setup K T)))
          → All Wakes rest
          → All Wakes ((if off then [] else job_webhooks ∷ []) ++ rest)
      webhook_duty-Wakes true rest h = h
      webhook_duty-Wakes false rest h = (tt, h)

      duties-Wakes :
          (flags : ControllerFlags)
          → All Wakes (duties K T parse_duration get_config_map unset enable_webhooks flags)
      duties-Wakes flags =
          (tt, (controller-Wakes, webhook_duty-Wakes (enable_webhooks == "false") _ (tt, (tt, tt))))

      -- If the process starts a manager, then every controller that this has been given is woken for
      -- a job by each of its events but its deletion, and for a pod that the job owns by its deletion
      -- only.
      pub main-Wakes :
          (C : Runtime (Setup K T)) (L : IsRuntime C) (zap : String → Option LogFlag)
          (args : List String) (m : C.Manager) (n : ℕ)
          → controller_main K T parse_duration get_config_map unset C enable_webhooks zap args
            ≡ ran m n
          → All Wakes (L.registered m)
      main-Wakes C L zap args m n e =
          let (flags, rest, read, options, registered, code) =
            main-duties K T parse_duration get_config_map unset enable_webhooks C L zap args m n
              e in
          subst (All Wakes) (sym registered) (duties-Wakes flags)
