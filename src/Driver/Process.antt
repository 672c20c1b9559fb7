-- ===== src/Driver/Process.antt =====
-- cmd/driver/main.go from its arguments on: the flags it defines, and main.
use fms_lm_eval_service.Prelude.{String, ◌==◌, Option, some, List, [], if◌then◌else◌}
use fms_lm_eval_service.Prelude.Int.{pos}
use fms_lm_eval_service.Text.Flag.{
  Formal, Parse, stopped, helped, failed, string_flag, int_flag, parse_flags,
}
use fms_lm_eval_service.Text.LogFlag.{LogFlag, log_formal}
use fms_lm_eval_service.Driver.Connect.{Transport}
use fms_lm_eval_service.Driver.Run.{Host, Client}
use fms_lm_eval_service.Driver.Main.{Flags, Binaries, Exit, exited, main}

-- The flags' defaults.
abbrev pub default_flags : Flags
default_flags = record {
  copy = "";
  job_namespace = "";
  job_name = "";
  grpc_service = "";
  grpc_port = pos 8082;
  output_path = "/opt/app-root/src/output";
  args = [];
}

-- `zap` gives the flags that zap defines, by name.
module _ (zap : String → Option LogFlag) where
  unfoldable pub driver_flags : String → Option (Formal Flags)
  driver_flags name =
      if name == "copy"
      then some (string_flag (λ v s. record s { copy = v }))
      else if name == "job-namespace"
      then some (string_flag (λ v s. record s { job_namespace = v }))
      else if name == "job-name"
      then some (string_flag (λ v s. record s { job_name = v }))
      else if name == "grpc-service"
      then some (string_flag (λ v s. record s { grpc_service = v }))
      else if name == "grpc-port"
      then some (int_flag (λ v s. record s { grpc_port = v }))
      else if name == "output-path"
      then some (string_flag (λ v s. record s { output_path = v }))
      else log_formal (zap name)

  -- `flag.CommandLine` ends the process with 0 after the help text, and with 2 on an error.
  unfoldable pub parse_command_line : List String → Parse Flags
  unfolding driver_flags
  parse_command_line args = parse_flags driver_flags args default_flags

  module _ (H : Host) (B : Binaries H.Files) (T : Transport) (C : Client) where
    abbrev pub main_after : Parse Flags → C.Service → H.Files → C.Service × H.Files × Exit
    main_after (stopped flags args) service files =
        main H B T C (record flags { args = args }) service files
    main_after helped service files = (service, files, exited 0)
    main_after failed service files = (service, files, exited 2)

    -- The process with the arguments behind the program's path.
    unfoldable pub process : List String → C.Service → H.Files → C.Service × H.Files × Exit
    process args service files = main_after (parse_command_line args) service files
