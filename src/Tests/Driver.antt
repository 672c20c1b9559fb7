-- ===== src/Tests/Driver.antt =====
-- The theorems about the driver at a file system that is a list of paths with contents.
use fms_lm_eval_service.Prelude.{
  ℕ, String, ◌<>◌, ◌==◌, false, true, ◌≡◌, refl, ◌≤◌, Option, none, some, List, [], ◌∷◌, map,
  if◌then◌else◌, arith, eq_iff,
}
use fms_lm_eval_service.Prelude.Int.{pos}
use fms_lm_eval_service.Api.Core.{errorf, Result, ok, err}
use fms_lm_eval_service.Text.Strings.{trim_spaces}
use fms_lm_eval_service.Cluster.Memory.{memory, memory-IsLawful, not_found}
use fms_lm_eval_service.Cluster.Interface.{World}
use fms_lm_eval_service.Reconcile.Base.{set_status}
use fms_lm_eval_service.Grpc.Status.{merge_report, update_status, serve_update_status}
use fms_lm_eval_service.Driver.Connect.{
  DriverOption, connect_mode, get_grpc_client_conn, new_driver,
}
use fms_lm_eval_service.Driver.Run.{
  Host, Visit, returned, exec, get_results, outcome, dump_logs, run, running_report,
  complete_report,
}
use fms_lm_eval_service.Driver.Results.{
  first_error, last_or, candidates, retrieved, get_results-last,
}
use fms_lm_eval_service.Driver.Report.{served, own_key, verdict}
use fms_lm_eval_service.Driver.Main.{Flags, Binaries, exited, driver_option, main}
use fms_lm_eval_service.Driver.Install.{IsRegular}
use fms_lm_eval_service.Driver.Exit.{main-exits, main-stored}
use fms_lm_eval_service.Tests.Data.{job_in, cluster, world}
use fms_lm_eval_service.Tests.Pod.{transport}

abbrev Disk : Type 0
Disk = List (String × String)

abbrev read : Disk → String → Result String
read [] path = err (errorf "no such file")
read ((p, text) ∷ disk) path = if p == path then ok text else read disk path

abbrev visit : String × String → Visit
visit (p, text) = record { path = p; is_dir = false; error = none }

-- Every program writes a file of results; `lm_eval` succeeds and the others fail.
abbrev pub host : Host
host = record {
  Files = Disk;
  join = λ a b. a <> "/" <> b;
  matches = λ pattern path. path == "/out/results.json";
  create = λ disk path. ((path, "") ∷ disk, none);
  stdin_pipe = λ program args. none;
  run_program = λ disk program args input. (
    ("/out/results.json", "{}") ∷ ("/out/stdout.log", "done") ∷ disk,
    if program == "lm_eval" then none else some (errorf "exit status 1"),
  );
  read_file = read;
  write_stdout = λ disk text. ("console", text) ∷ disk;
  visits = λ disk root. record { path = root; is_dir = true; error = none } ∷ map visit disk;
}

abbrev pub binaries : Binaries Disk
binaries = record {
  executable = ok "/bin/driver";
  open_file = read;
  open_new = λ disk path. ((path, "") ∷ disk, none);
  copy = λ disk path text. ((path, text) ∷ disk, none);
  close = λ disk path. (disk, none);
}

pub binaries-IsRegular : (path : String) → IsRegular binaries path
binaries-IsRegular path = record {
  filled = λ files text e1 e2 e3. rw ((eq_iff path path).1 refl) refl;
}

abbrev flags : Flags
flags = record {
  copy = "";
  job_namespace = "default";
  job_name = "test";
  grpc_service = "service";
  grpc_port = pos 8082;
  output_path = "/out";
  args = "lm_eval" ∷ [];
}

abbrev pub option : DriverOption
option = driver_option flags

abbrev pub stored : World memory
stored = world (cluster (job_in "Scheduled") (err not_found) none)

abbrev disk : Disk
disk = ("/out/results.json", "{}") ∷ ("/out/results.json", "old") ∷ []

get_results-last_example :
    get_results host option disk
    ≡ retrieved
        (first_error (host.visits disk "/out"))
        (last_or "" (candidates host disk "/out" (host.visits disk "/out")))
get_results-last_example = get_results-last host option disk

main-exits_run :
    (n : ℕ) × (n ≤ 1)
    × ((main host binaries (transport []) (served memory) flags stored []).2 ≡ exited n)
main-exits_run = main-exits host binaries (transport []) (served memory) flags stored []

main-stored_run :
    let (ended, ran) = exec host option [] in
    (failed : Option _) × (ran ≡ returned failed)
    × (memory.get_job
          (main host binaries (transport []) (served memory) flags stored []).0.server
          (own_key option)
        ≡ ok (
            set_status (job_in "Scheduled") (
              verdict
                (job_in "Scheduled").status
                (outcome host option (dump_logs host option ended) failed))))
unfolding main new_driver get_grpc_client_conn connect_mode run exec running_report complete_report
    get_results serve_update_status update_status merge_report trim_spaces
main-stored_run =
    main-stored memory memory-IsLawful host binaries (transport []) flags stored [] refl
      (λ b. omega (arith, b.0)) (λ b. omega (arith, b.0)) (job_in "Scheduled") refl refl
