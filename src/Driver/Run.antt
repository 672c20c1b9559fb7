-- ===== src/Driver/Run.antt =====
-- backend/driver/driver.go: Run, exec, updateStatus, getResults and updateCompleteStatus. The logs
-- are left out.
use fms_lm_eval_service.Prelude.{
  String, ◌==◌, Bool, not, ◌&&◌, Option, none, some, List, [], ◌∷◌, if◌then◌else◌,
}
use fms_lm_eval_service.Api.Core.{Error, Result, ok, err}
use fms_lm_eval_service.Api.Job.{
  running_job_state, complete_job_state, no_reason, succeed_reason, failed_reason,
}
use fms_lm_eval_service.Api.Backend.{JobStatus}
use fms_lm_eval_service.Driver.Connect.{DriverOption}

-- One call that `filepath.WalkDir` makes to its function: the path, whether the entry is there and
-- is a directory, and the error.
pub record Visit : Type 0 where
  pub path : String
  pub is_dir : Bool
  pub error : Option Error

-- The operating system under the driver. `visits files root` are the calls of `WalkDir root`, in
-- their order, to a function that skips every directory below the root and does not stop.
-- `run_program files program args input` runs a program to its end, its output in the two logs.
pub record Host : Type 1 where
  pub Files : Type 0
  pub join : String → String → String
  pub matches : String → String → Bool
  pub create : Files → String → Files × Option Error
  pub stdin_pipe : String → List String → Option Error
  pub run_program : Files → String → List String → String → Files × Option Error
  pub read_file : Files → String → Result String
  pub write_stdout : Files → String → Files
  pub visits : Files → String → List Visit

-- The server that the driver reports to, behind its client: the server after a report, and the error.
pub record Client : Type 1 where
  pub Service : Type 0
  pub send : Service → JobStatus → Service × Option Error

-- How a call ends: it returns an error or nil, or an index out of range stops the process.
pub data Ran : Type 0 where
  returned : Option Error → Ran
  panicked : Ran

unfoldable pub running_report : DriverOption → JobStatus
running_report option = record {
  job_name = option.job_name;
  job_namespace = option.job_namespace;
  state = running_job_state;
  reason = no_reason;
  status_message = "update status from the driver: running";
  results = none;
}

-- The report of `updateCompleteStatus` for the results or the error.
unfoldable pub complete_report : DriverOption → Result String → JobStatus
complete_report option (ok results) = record {
  job_name = option.job_name;
  job_namespace = option.job_namespace;
  state = complete_job_state;
  reason = succeed_reason;
  status_message = "update status from the driver: completed";
  results = some results;
}
complete_report option (err e) = record {
  job_name = option.job_name;
  job_namespace = option.job_namespace;
  state = complete_job_state;
  reason = failed_reason;
  status_message = e.message;
  results = none;
}

module _ (H : Host) where
  abbrev pub start : H.Files → List String → H.Files × Ran
  start files [] = (files, panicked)
  start files (program ∷ args) = elim (H.stdin_pipe program args) [
    | some e ↦ (files, returned (some e))
    | none ↦ let (files', e) = H.run_program files program args "y\n" in (files', returned e)
  ]

  unfoldable pub exec : DriverOption → H.Files → H.Files × Ran
  exec option files =
      let (files1, e1) = H.create files (H.join option.output_path "stdout.log") in
      elim e1 [
        | some e ↦ (files1, returned (some e))
        | none ↦
            let (files2, e2) = H.create files1 (H.join option.output_path "stderr.log") in
            elim e2 [ some e ↦ (files2, returned (some e)) | none ↦ start files2 option.args ]
      ]

  abbrev pub to_console : H.Files → String → H.Files
  to_console files file = elim (H.read_file files file) [
    | ok bytes ↦ H.write_stdout files bytes
    | err _ ↦ files
  ]

  -- What the walk's function makes of the results at an entry without an error.
  abbrev pub visited : H.Files → String → Visit → String → String
  visited files root visit results =
      if not (visit.path == root) && visit.is_dir
      then results
      else if H.matches (H.join root "result*.json") visit.path
      then elim (H.read_file files visit.path) [ ok bytes ↦ bytes | err _ ↦ results ]
      else results

  abbrev pub walk : H.Files → String → List Visit → String → Result String
  walk files root [] results = ok results
  walk files root (visit ∷ visits) results = elim visit.error [
    | some e ↦ err e
    | none ↦ walk files root visits (visited files root visit results)
  ]

  unfoldable pub get_results : DriverOption → H.Files → Result String
  get_results option files = walk files option.output_path (H.visits files option.output_path) ""

  -- What `updateCompleteStatus` reports: the error of the program, or the results.
  abbrev pub outcome : DriverOption → H.Files → Option Error → Result String
  outcome option files none = get_results option files
  outcome option files (some e) = err e

  abbrev pub dump_logs : DriverOption → H.Files → H.Files
  dump_logs option files =
      to_console (to_console files (H.join option.output_path "stdout.log"))
        (H.join option.output_path "stderr.log")

  module _ (C : Client) where
    abbrev pub end_run : DriverOption → C.Service → H.Files × Ran → C.Service × H.Files × Ran
    end_run option service (files, panicked) = (service, files, panicked)
    end_run option service (files, returned failed) =
        let files' = dump_logs option files in
        let (service', e) =
          C.send service (complete_report option (outcome option files' failed)) in
        (service', files', returned e)

    -- `updateStatus` with the state Running, the only one it is called with.
    abbrev pub announce : DriverOption → C.Service → C.Service × Option Error
    announce option service = C.send service (running_report option)

    unfoldable pub run : DriverOption → C.Service → H.Files → C.Service × H.Files × Ran
    run option service files =
        let (service', e) = announce option service in
        elim e [
          | some failed ↦ (service', files, returned (some failed))
          | none ↦ end_run option service' (exec option files)
        ]
