-- ===== src/Controller/Duties.antt =====
-- What the manager that cmd/controller/main.go starts has been given.
use fms_lm_eval_service.Prelude.{
  ℕ, String, ◌==◌, Bool, true, false, not, ◌≡◌, refl, subst, sym, ◌∙◌, ap, Option, none, some, List,
  [], ◌∷◌, ◌++◌, if◌then◌else◌,
}
use fms_lm_eval_service.Api.Core.{Duration, Error, Result, ok, err, NamespacedName}
use fms_lm_eval_service.Text.Flag.{Parse, stopped, helped, failed}
use fms_lm_eval_service.Text.LogFlag.{LogFlag}
use fms_lm_eval_service.Cluster.Interface.{Kube}
use fms_lm_eval_service.Pod.Options.{ServiceOptions}
use fms_lm_eval_service.Settings.Start.{Listener, run_setup}
use fms_lm_eval_service.Controller.Manage.{
  ManagerOptions, Registration, runnable, controller, job_webhooks, healthz_check, readyz_check,
  Runtime, IsRuntime, Setup, and_then, job_funcs, pod_funcs, setup_with_manager,
  setup_webhook_with_manager,
}
use fms_lm_eval_service.Controller.Flags.{ControllerFlags, parse_controller_flags}
use fms_lm_eval_service.Controller.Main.{
  Ended, ran, attempt, ctor, manager_options, end_code, check_and_start, manage, with_manager,
  with_config, main_parsed, controller_main,
}

pub attempt-ran {ℓ} :
    {M : Type ℓ} (p : M × Option Error) (next : M → Ended M) (m : M) (n : ℕ)
    → attempt p next ≡ ran m n
    → (p.1 ≡ none) × (next p.0 ≡ ran m n)
attempt-ran (mgr, none) next m n e = (refl, e)
attempt-ran (mgr, some e) next m n h = absurd cc

ran-inj {ℓ} : {M : Type ℓ} (a b : M) (m n : ℕ) → ran a m ≡ ran b n → (a ≡ b) × (m ≡ n)
ran-inj a b m n e = (cc, cc)

and_then-none {ℓ} :
    {M : Type ℓ} (p : M × Option Error) (next : M → M × Option Error)
    → (and_then p next).1 ≡ none
    → (p.1 ≡ none) × ((next p.0).1 ≡ none) × (and_then p next ≡ next p.0)
and_then-none (mgr, none) next e = (refl, e, refl)
and_then-none (mgr, some e) next h = absurd cc

module _ (K : Kube) (T : Listener) (parse_duration : String → Result Duration)
    (get_config_map : K.Server → NamespacedName → Result (String → Option String))
    (unset : ServiceOptions) (enable_webhooks : String) where
  abbrev pub webhook_duty : List (Registration (Setup K T))
  webhook_duty = if enable_webhooks == "false" then [] else job_webhooks ∷ []

  -- The registrations that the flags ask for, in their order.
  abbrev pub duties : ControllerFlags → List (Registration (Setup K T))
  duties flags =
      let r = ctor unset flags in
      runnable (λ s. run_setup K T parse_duration get_config_map s r)
      ∷ controller r job_funcs pod_funcs
      ∷ (webhook_duty ++ (healthz_check "healthz" ∷ readyz_check "readyz" ∷ []))

  module _ (C : Runtime (Setup K T)) (L : IsRuntime C) where
    abbrev Has : C.Manager → ManagerOptions → List (Registration (Setup K T)) → Type 0
    Has m o xs = (L.options m ≡ o) × (L.registered m ≡ xs)

    Has-register :
        (m : C.Manager) (x : Registration (Setup K T)) (o : ManagerOptions)
        (xs : List (Registration (Setup K T)))
        → Has m o xs
        → (C.register m x).1 ≡ none
        → Has (C.register m x).0 o (xs ++ (x ∷ []))
    Has-register m x o xs (h, k) e =
        let (same, added) = L.register_added m x e in
        (same ∙ h, added ∙ ap (λ ys. ys ++ (x ∷ [])) k)

    Has-setup :
        (flags : ControllerFlags) (m : C.Manager) (o : ManagerOptions)
        → Has m o []
        → (setup_with_manager K T parse_duration get_config_map C (ctor unset flags) m).1 ≡ none
        → let r = ctor unset flags in
          Has (setup_with_manager K T parse_duration get_config_map C r m).0 o (
            runnable (λ s. run_setup K T parse_duration get_config_map s r)
            ∷ controller r job_funcs pod_funcs
            ∷ [])
    unfolding setup_with_manager
    Has-setup flags m o h e =
        let r = ctor unset flags in
        let x = runnable (λ s. run_setup K T parse_duration get_config_map s r) in
        let next : C.Manager → C.Manager × Option Error =
          λ mgr. C.register mgr (controller r job_funcs pod_funcs) in
        let (first, second, same) = and_then-none (C.register m x) next e in
        rw same (
          Has-register (C.register m x).0 (controller r job_funcs pod_funcs) o (x ∷ [])
            (Has-register m x o [] h first) second)

    Has-checks :
        (m m' : C.Manager) (n : ℕ) (o : ManagerOptions) (xs : List (Registration (Setup K T)))
        → check_and_start K T parse_duration get_config_map unset C enable_webhooks m ≡ ran m' n
        → Has m o xs
        → Has m' o ((xs ++ (healthz_check "healthz" ∷ [])) ++ (readyz_check "readyz" ∷ []))
          × (n ≡ end_code (C.start m'))
    Has-checks m m' n o xs e h =
        let (first, e1) = attempt-ran (C.register m (healthz_check "healthz")) _ m' n e in
        let m1 = (C.register m (healthz_check "healthz")).0 in
        let (second, e2) = attempt-ran (C.register m1 (readyz_check "readyz")) _ m' n e1 in
        let both =
          Has-register m1 (readyz_check "readyz") o _
            (Has-register m (healthz_check "healthz") o xs h first) second in
        let (here, code) = ran-inj _ m' _ n e2 in
        subst
          (λ z.
            Has z o ((xs ++ (healthz_check "healthz" ∷ [])) ++ (readyz_check "readyz" ∷ []))
            × (n ≡ end_code (C.start z)))
          here (both, sym code)

    Has-behind :
        (off : Bool) (m m' : C.Manager) (n : ℕ) (o : ManagerOptions)
        (x y : Registration (Setup K T))
        → (if not off
            then attempt
                (setup_webhook_with_manager C m)
                (check_and_start K T parse_duration get_config_map unset C enable_webhooks)
            else check_and_start K T parse_duration get_config_map unset C enable_webhooks m)
          ≡ ran m' n
        → Has m o (x ∷ y ∷ [])
        → Has m' o (
            x
            ∷ y
            ∷ ((if off then [] else job_webhooks ∷ [])
                ++ (healthz_check "healthz" ∷ readyz_check "readyz" ∷ [])))
          × (n ≡ end_code (C.start m'))
    Has-behind true m m' n o x y e h = Has-checks m m' n o (x ∷ y ∷ []) e h
    Has-behind false m m' n o x y e h =
        let (given, e1) = attempt-ran (C.register m job_webhooks) _ m' n e in
        Has-checks (C.register m job_webhooks).0 m' n o (x ∷ y ∷ job_webhooks ∷ []) e1
          (Has-register m job_webhooks o (x ∷ y ∷ []) h given)

    Has-manage :
        (flags : ControllerFlags) (m m' : C.Manager) (n : ℕ) (o : ManagerOptions)
        → manage K T parse_duration get_config_map unset C enable_webhooks flags m ≡ ran m' n
        → Has m o []
        → Has m' o (duties flags) × (n ≡ end_code (C.start m'))
    Has-manage flags m m' n o e h =
        let setup = setup_with_manager K T parse_duration get_config_map C (ctor unset flags) m in
        let (first, e1) = attempt-ran setup _ m' n e in
        Has-behind (enable_webhooks == "false") setup.0 m' n o _ _ e1 (Has-setup flags m o h first)

    abbrev IsGiven : ControllerFlags → C.Manager → ℕ → Type 0
    IsGiven flags m n =
        (L.options m ≡ manager_options flags)
        × (L.registered m ≡ duties flags)
        × (n ≡ end_code (C.start m))

    with_manager-IsGiven :
        (flags : ControllerFlags) (config : C.Config) (made : Result C.Manager)
        → C.new_manager config (manager_options flags) ≡ made
        → (m : C.Manager) (n : ℕ)
        → with_manager K T parse_duration get_config_map unset C enable_webhooks flags made
          ≡ ran m n
        → IsGiven flags m n
    with_manager-IsGiven flags config (err e) k m n h = absurd cc
    with_manager-IsGiven flags config (ok mgr) k m n h =
        let (has, code) =
          Has-manage flags mgr m n (manager_options flags) h
            (L.new_manager_options config (manager_options flags) mgr k) in
        (has.0, has.1, code)

    with_config-IsGiven :
        (flags : ControllerFlags) (found : Result C.Config) (m : C.Manager) (n : ℕ)
        → with_config K T parse_duration get_config_map unset C enable_webhooks flags found
          ≡ ran m n
        → IsGiven flags m n
    with_config-IsGiven flags (err e) m n h = absurd cc
    with_config-IsGiven flags (ok config) m n h = with_manager-IsGiven flags config _ refl m n h

    main_parsed-IsGiven :
        (p : Parse ControllerFlags) (m : C.Manager) (n : ℕ)
        → main_parsed K T parse_duration get_config_map unset C enable_webhooks p ≡ ran m n
        → (flags : ControllerFlags) × (rest : List String) × (p ≡ stopped flags rest)
          × IsGiven flags m n
    main_parsed-IsGiven (stopped flags rest) m n e =
        (flags, rest, refl, with_config-IsGiven flags C.get_config m n e)
    main_parsed-IsGiven helped m n h = absurd cc
    main_parsed-IsGiven failed m n h = absurd cc

    -- If the process starts a manager, then its flags could be read, the manager has the options of
    -- these flags, it has been given what they ask for in its order, and the exit code is that of the
    -- manager's end.
    pub main-duties :
        (zap : String → Option LogFlag) (args : List String) (m : C.Manager) (n : ℕ)
        → controller_main K T parse_duration get_config_map unset C enable_webhooks zap args
          ≡ ran m n
        → (flags : ControllerFlags) × (rest : List String) × (parse_controller_flags zap args
            ≡ stopped flags rest)
          × (L.options m ≡ manager_options flags)
          × (L.registered m ≡ duties flags)
          × (n ≡ end_code (C.start m))
    unfolding controller_main
    main-duties zap args m n e =
        let (flags, rest, read, given) =
          main_parsed-IsGiven (parse_controller_flags zap args) m n e in
        (flags, rest, read, given.0, given.1, given.2)
