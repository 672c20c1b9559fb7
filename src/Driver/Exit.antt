-- ===== src/Driver/Exit.antt =====
-- The exit code of the driver's process (cmd/driver/main.go), and what it says of the job.
use fms_lm_eval_service.Prelude.{
  false, sym, ◌∙◌, true, eq_iff, String, ap, ◌≡◌, refl, ◌≤◌, ℕ, Option, none, some, List, ◌∷◌, [],
  inl, inr, Option-cases, arith, ◌==◌, Bool-cases, ◌⊎◌,
}
use fms_lm_eval_service.Text.Strings.{IsBlank}
use fms_lm_eval_service.Api.Core.{Error, ok, err, Result-cases}
use fms_lm_eval_service.Api.Job.{LmEvalJob}
use fms_lm_eval_service.Cluster.Interface.{Kube, IsLawful, World}
use fms_lm_eval_service.Reconcile.Base.{set_status}
use fms_lm_eval_service.Driver.Connect.{DriverOption, Transport, new_driver}
use fms_lm_eval_service.Driver.Run.{
  Host, Client, returned, exec, dump_logs, outcome, running_report, run, start,
}
use fms_lm_eval_service.Driver.Report.{
  served, own_key, verdict, run-refused, run-announced, run-stored,
}
use fms_lm_eval_service.Driver.Main.{
  Flags, Binaries, exited, code_of, exit_of, driver_option, copy_exec, drive, drive_with, main,
}

module _ (H : Host) where
  start-returned :
      (files : H.Files) (arg : String) (args : List String)
      → (failed : Option Error) × ((start H files (arg ∷ args)).1 ≡ returned failed)
  start-returned files arg args = elim (Option-cases (H.stdin_pipe arg args)) [
    | inl n ↦ rw (start, n) (_, refl)
    | inr (e, s) ↦ rw (start, s) (some e, refl)
  ]

  -- With an argument there is no index out of range.
  exec-returned :
      (option : DriverOption) (files : H.Files) (arg : String) (args : List String)
      → option.args ≡ arg ∷ args
      → (failed : Option Error) × ((exec H option files).1 ≡ returned failed)
  exec-returned option files arg args h =
      unfold exec in
      let (files1, e1) = H.create files (H.join option.output_path "stdout.log") in
      elim (Option-cases e1) [
        | inr (e, s) ↦ rw (exec, s) (some e, refl)
        | inl n ↦
            let (files2, e2) = H.create files1 (H.join option.output_path "stderr.log") in
            elim (Option-cases e2) [
              | inr (e, s) ↦ rw (exec, n, s) (some e, refl)
              | inl n2 ↦ rw (exec, n, n2, h) (start-returned files2 arg args)
            ]
      ]

module _ (H : Host) (C : Client) where
  run-returned :
      (option : DriverOption) (service : C.Service) (files : H.Files) (arg : String)
      (args : List String)
      → option.args ≡ arg ∷ args
      → (e : Option Error) × ((run H C option service files).2 ≡ returned e)
  run-returned option service files arg args h =
      let (failed, r) = exec-returned H option files arg args h in
      elim (Option-cases (C.send service (running_report option)).1) [
        | inl n ↦ rw (run-announced H C option service files n, r) (_, refl)
        | inr (e, s) ↦ rw (run-refused H C option service files e s) (some e, refl)
      ]

code_of-bound : (e : Option Error) → code_of e ≤ 1
code_of-bound none = omega arith
code_of-bound (some e) = omega arith

List-cases {ℓ} : {A : Type ℓ} (xs : List A) → (xs ≡ []) ⊎ ((y : A) × (ys : List A) × (xs ≡ y ∷ ys))
List-cases [] = inl refl
List-cases (x ∷ xs) = inr (x, xs, refl)

module _ (H : Host) (B : Binaries H.Files) (T : Transport) (C : Client) (flags : Flags)
    (service : C.Service) (files : H.Files) where
  main-copies :
      (flags.copy == "") ≡ false
      → (main H B T C flags service files).2 ≡ exited (code_of (copy_exec B files flags.copy).1)
  main-copies copying = unfold main in rw (main, copying)

  module _ (driving : (flags.copy == "") ≡ true) where
    main-with : main H B T C flags service files ≡ drive_with H B T C flags.args flags service files
    main-with = unfold main in rw (main, driving)

    main-idle : flags.args ≡ [] → main H B T C flags service files ≡ (service, files, exited 1)
    main-idle e = main-with ∙ ap (λ a. drive_with H B T C a flags service files) e

    main-drive :
        (arg : String) (args : List String)
        → flags.args ≡ arg ∷ args
        → main H B T C flags service files ≡ drive H B T C flags service files
    main-drive arg args e = main-with ∙ ap (λ a. drive_with H B T C a flags service files) e

  drive-unconnected :
      (e : Error)
      → new_driver T (driver_option flags) ≡ err e
      → drive H B T C flags service files ≡ (service, files, exited 1)
  drive-unconnected e h = rw (drive, h)

  drive-connected :
      (conn : T.Connection)
      → new_driver T (driver_option flags) ≡ ok conn
      → drive H B T C flags service files
        ≡ let (service', files', ran) = run H C (driver_option flags) service files in
          (service', files', exit_of ran)
  drive-connected conn h = rw (drive, h)

  -- On flags that could be read, `main` ends with the exit code 0 or 1 and never by an index out of
  -- range, whatever fails.
  pub main-exits : (n : ℕ) × (n ≤ 1) × ((main H B T C flags service files).2 ≡ exited n)
  main-exits = elim (Bool-cases (flags.copy == "")) [
    | inr copying ↦ rw (main-copies copying) (_, code_of-bound _, refl)
    | inl driving ↦ elim (List-cases flags.args) [
      | inl e ↦ rw (main-idle driving e) (1, omega arith, refl)
      | inr (arg, args, e) ↦ elim (Result-cases (new_driver T (driver_option flags))) [
        | inr (failure, h) ↦
            rw (main-drive driving arg args e ∙ drive-unconnected failure h) (1, omega arith, refl)
        | inl (conn, h) ↦
            let (ended, r) = run-returned H C (driver_option flags) service files arg args e in
            rw (main-drive driving arg args e ∙ drive-connected conn h, r)
              (code_of ended, code_of-bound ended, refl)
      ]
    ]
  ]

  exit_zero : (e : Option Error) → exit_of (returned e) ≡ exited 0 → returned e ≡ returned none
  exit_zero none z = refl
  exit_zero (some e) z = absurd cc

  -- A process that does not copy the binary and ends with 0 has run the driver without an error.
  main-zero :
      (flags.copy == "") ≡ true
      → (main H B T C flags service files).2 ≡ exited 0
      → (failed : Option Error) × ((exec H (driver_option flags) files).1 ≡ returned failed)
        × ((run H C (driver_option flags) service files).2 ≡ returned none)
        × ((main H B T C flags service files).0 ≡ (run H C (driver_option flags) service files).0)
  main-zero driving = elim (List-cases flags.args) [
    | inl e ↦ rw (main-idle driving e) (λ z. absurd cc)
    | inr (arg, args, e) ↦ elim (Result-cases (new_driver T (driver_option flags))) [
      | inr (failure, h) ↦
          rw (main-drive driving arg args e ∙ drive-unconnected failure h) (λ z. absurd cc)
      | inl (conn, h) ↦
          let (failed, x) = exec-returned H (driver_option flags) files arg args e in
          let (ended, r) = run-returned H C (driver_option flags) service files arg args e in
          rw (main-drive driving arg args e ∙ drive-connected conn h)
            (λ z. (failed, x, r ∙ exit_zero ended (ap exit_of (sym r) ∙ z), refl))
    ]
  ]

module _ (K : Kube) (L : IsLawful K) (H : Host) (B : Binaries H.Files) (T : Transport)
    (flags : Flags) (w : World K) (files : H.Files) where
  -- If the driver's flags ask for no copy and name a job with names that are not blank, the job is
  -- stored, and the process ends with the exit code 0, then the program has been run or could not
  -- be started, and the stored job is complete: with the results and the reason Succeeded if the program
  -- succeeded and the results were retrieved, with the error's message and the reason Failed if
  -- not; the rest of the job is unchanged.
  pub main-stored :
      flags.copy ≡ ""
      → ¬ IsBlank flags.job_name
      → ¬ IsBlank flags.job_namespace
      → (job : LmEvalJob) → K.get_job w.server (own_key (driver_option flags)) ≡ ok job
      → (main H B T (served K) flags w files).2 ≡ exited 0
      → let (ended, ran) = exec H (driver_option flags) files in
        (failed : Option Error) × (ran ≡ returned failed)
        × (K.get_job (main H B T (served K) flags w files).0.server (own_key (driver_option flags))
            ≡ ok (
                set_status job (
                  verdict job.status (
                    outcome H
                      (driver_option flags)
                      (dump_logs H (driver_option flags) ended)
                      failed))))
  main-stored driving named placed job h z =
      let (failed, x, r, e) =
        main-zero H B T (served K) flags w files ((eq_iff flags.copy "").1 driving) z in
      (
        failed,
        x,
        rw e (run-stored K L H (driver_option flags) w files named placed job h failed x r),
      )
