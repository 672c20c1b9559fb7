-- ===== src/Driver/Ends.antt =====
-- How the driver's process (cmd/driver/main.go) ends.
use fms_lm_eval_service.Prelude.{String, ◌≡◌, ◌↔◌, refl, ℕ, ◌≤◌, Option, List, arith}
use fms_lm_eval_service.Text.Flag.{Parse, stopped, helped, failed}
use fms_lm_eval_service.Text.LogFlag.{LogFlag}
use fms_lm_eval_service.Driver.Connect.{Transport}
use fms_lm_eval_service.Driver.Run.{Host, Client}
use fms_lm_eval_service.Driver.Main.{Flags, Binaries, Exit, exited}
use fms_lm_eval_service.Driver.Exit.{main-exits}
use fms_lm_eval_service.Driver.Process.{parse_command_line, main_after, process}

abbrev Ends : Parse Flags → Exit → Type 0
Ends parse exit =
    (n : ℕ) × (exit ≡ exited n) × (n ≤ 2) × ((n ≡ 2) ↔ (parse ≡ failed)) × (parse ≡ helped → n ≡ 0)

module _ (zap : String → Option LogFlag) (H : Host) (B : Binaries H.Files) (T : Transport)
    (C : Client) where
  main_after-Ends :
      (parse : Parse Flags) (service : C.Service) (files : H.Files)
      → Ends parse (main_after zap H B T C parse service files).2
  main_after-Ends (stopped flags args) service files =
      let (n, small, e) = main-exits H B T C (record flags { args = args }) service files in
      (n, e, omega arith, (λ z. absurd (omega arith), λ z. absurd cc), λ z. absurd cc)
  main_after-Ends helped service files =
      (0, refl, omega arith, (λ z. absurd (omega arith), λ z. absurd cc), λ z. refl)
  main_after-Ends failed service files =
      (2, refl, omega arith, (λ z. refl, λ z. refl), λ z. absurd cc)

  -- Whatever its arguments are and whatever fails, the process ends with an exit code that is at
  -- most 2, and never by an index out of range; the code is 2 exactly if the flags cannot be read.
  pub process-exits :
      (args : List String) (service : C.Service) (files : H.Files)
      → (n : ℕ) × ((process zap H B T C args service files).2 ≡ exited n)
        × (n ≤ 2)
        × ((n ≡ 2) ↔ (parse_command_line zap args ≡ failed))
  process-exits args service files =
      unfold process in
      let (n, e, small, two, help) = main_after-Ends (parse_command_line zap args) service files in
      (n, e, small, two)
