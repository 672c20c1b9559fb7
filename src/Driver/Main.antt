-- ===== src/Driver/Main.antt =====
-- cmd/driver/main.go: main after the flags are parsed, CopyExec and findThisBinary. A log line is
-- left out; a deferred close whose error nobody reads changes nothing here.
use fms_lm_eval_service.Prelude.{
  ℕ, String, ◌<>◌, ◌==◌, true, Option, none, some, List, [], ◌∷◌, if◌then◌else◌,
}
use fms_lm_eval_service.Prelude.Int.{ℤ}
use fms_lm_eval_service.Api.Core.{Error, errorf, Result, ok, err}
use fms_lm_eval_service.Driver.Connect.{DriverOption, Transport, new_driver}
use fms_lm_eval_service.Driver.Run.{Host, Client, Ran, returned, panicked, run}

-- The flags' values, as the package flag parsed them, and the arguments after them.
pub record Flags : Type 0 where
  pub copy : String
  pub job_namespace : String
  pub job_name : String
  pub grpc_service : String
  pub grpc_port : ℤ
  pub output_path : String
  pub args : List String

-- The package os on binaries: the path of this one, the opening of a file (its content), the
-- opening of a new one that is readable and executable by all, a write into it, and its closing.
pub record Binaries (F : Type 0) : Type 0 where
  pub executable : Result String
  pub open_file : F → String → Result String
  pub open_new : F → String → F × Option Error
  pub copy : F → String → String → F × Option Error
  pub close : F → String → F × Option Error

-- How the process ends: with an exit code, or by a panic.
pub data Exit : Type 0 where
  exited : ℕ → Exit
  crashed : Exit

abbrev pub find_this_binary : {F : Type 0} → Binaries F → Result String
find_this_binary B = elim B.executable [
  | err e ↦ err (errorf ("failed to file executable: " <> e.message))
  | ok bin ↦ ok bin
]

abbrev pub copy_wrapped : String → Option Error → Option Error
copy_wrapped destination none = none
copy_wrapped destination (some e) = some (record {
  message = "copy this binary to " <> destination <> ": " <> e.message;
  status_reason = e.status_reason;
})

module _ {F : Type 0} (B : Binaries F) where
  abbrev after_copy : String → F × Option Error → F × Option Error
  after_copy destination (files, some e) = (files, some e)
  after_copy destination (files, none) = B.close files destination

  abbrev after_open : String → String → F × Option Error → F × Option Error
  after_open text destination (files, some e) = (files, some e)
  after_open text destination (files, none) = after_copy destination (B.copy files destination text)

  abbrev after_read : F → String → Result String → F × Option Error
  after_read files destination (err e) = (files, some e)
  after_read files destination (ok text) =
      after_open text destination (B.open_new files destination)

  abbrev after_path : F → String → Result String → F × Option Error
  after_path files destination (err e) = (files, some e)
  after_path files destination (ok path) = after_read files destination (B.open_file files path)

  abbrev copy_body : F → String → F × Option Error
  copy_body files destination = after_path files destination (find_this_binary B)

  unfoldable pub copy_exec : F → String → F × Option Error
  copy_exec files destination =
      let (files', e) = copy_body files destination in (files', copy_wrapped destination e)

abbrev pub driver_option : Flags → DriverOption
driver_option flags = record {
  has_context = true;
  job_namespace = flags.job_namespace;
  job_name = flags.job_name;
  grpc_service = flags.grpc_service;
  grpc_port = flags.grpc_port;
  output_path = flags.output_path;
  args = flags.args;
}

-- The exit code that an error gives.
abbrev pub code_of : Option Error → ℕ
code_of none = 0
code_of (some e) = 1

abbrev pub exit_of : Ran → Exit
exit_of (returned e) = exited (code_of e)
exit_of panicked = crashed

-- `C` is the client that the generated code makes of the connection.
module _ (H : Host) (B : Binaries H.Files) (T : Transport) (C : Client) where
  abbrev pub drive : Flags → C.Service → H.Files → C.Service × H.Files × Exit
  drive flags service files = elim (new_driver T (driver_option flags)) [
    | err e ↦ (service, files, exited 1)
    | ok _ ↦
        let (service', files', ran) = run H C (driver_option flags) service files in
        (service', files', exit_of ran)
  ]

  -- The rest of `main` for the given arguments.
  abbrev pub drive_with : List String → Flags → C.Service → H.Files → C.Service × H.Files × Exit
  drive_with [] flags service files = (service, files, exited 1)
  drive_with (arg ∷ args) flags service files = drive flags service files

  unfoldable pub main : Flags → C.Service → H.Files → C.Service × H.Files × Exit
  main flags service files =
      if flags.copy == ""
      then drive_with flags.args flags service files
      else let (files', e) = copy_exec B files flags.copy in (service, files', exited (code_of e))
