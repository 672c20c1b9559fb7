-- ===== src/Tests/CommandLine.antt =====
-- The theorems about the command line of a pod at a job and a file system in memory.
use fms_lm_eval_service.Prelude.{
  ℕ, List, ◌≤◌, ◌⊎◌, ◌↔◌, String, ◌≡◌, ◌++◌, refl, none, some, [], ◌∷◌, arith, Option,
}
use fms_lm_eval_service.Prelude.Int.{pos, negsuc}
use fms_lm_eval_service.Api.Core.{Error, ok, Time}
use fms_lm_eval_service.Api.Job.{job_key, LmEvalJob}
use fms_lm_eval_service.Text.Decimal.{itoa, format_nat, write_digits, digit}
use fms_lm_eval_service.Text.Strings.{trim_spaces}
use fms_lm_eval_service.Text.ParseInt.{parsed, refused, err_syntax, err_range}
use fms_lm_eval_service.Text.ParseBase.{parse_based, underscore_loop, parse_uint_0, parse_int_0}
use fms_lm_eval_service.Text.Flag.{
  not_a_flag, end_mark, bad_syntax, named, cut_value, word_of, stopped, failed, parse_loop,
  parse_flags,
}
use fms_lm_eval_service.Cluster.Memory.{memory, memory-IsLawful}
use fms_lm_eval_service.Reconcile.Base.{set_status, finish}
use fms_lm_eval_service.Grpc.Status.{merge_report, update_status, serve_update_status}
use fms_lm_eval_service.Pod.Options.{dest_driver_path}
use fms_lm_eval_service.Pod.Command.{generate_cmd, generate_args}
use fms_lm_eval_service.Pod.Build.{create_pod, driver_container}
use fms_lm_eval_service.Driver.Connect.{connect_mode, get_grpc_client_conn, new_driver}
use fms_lm_eval_service.Driver.Run.{
  returned, exec, outcome, dump_logs, get_results, run, running_report, complete_report,
}
use fms_lm_eval_service.Driver.Report.{served, verdict}
use fms_lm_eval_service.Driver.Main.{exited, main}
use fms_lm_eval_service.Text.LogFlag.{LogFlag}
use fms_lm_eval_service.Driver.Process.{driver_flags, parse_command_line, process}
use fms_lm_eval_service.Driver.CommandLine.{
  meant, arguments, pod_option, container_args, program, parse-generate_cmd, process-stored,
}
use fms_lm_eval_service.Driver.Install.{Installed, Hindered, process-installs}
use fms_lm_eval_service.Driver.Ends.{process-exits}
use fms_lm_eval_service.Cluster.Interface.{World}
use fms_lm_eval_service.Reconcile.Handlers.{reconcile}
use fms_lm_eval_service.Reconcile.Settle.{completed}
use fms_lm_eval_service.Lifecycle.Whole.{process-settles}
use fms_lm_eval_service.Tests.Data.{reconciler, job, job_in}
use fms_lm_eval_service.Tests.Pod.{pod_main, transport}
use fms_lm_eval_service.Tests.Driver.{host, binaries, binaries-IsRegular, stored}

parse_int_0-runs :
    (parse_int_0 "0x_1F" ≡ parsed (pos 31))
    × (parse_int_0 "-017" ≡ parsed (negsuc 14))
    × (parse_int_0 "1__0" ≡ refused err_syntax)
    × (parse_int_0 "8_082" ≡ parsed (pos 8082))
    × (parse_int_0 "0b2" ≡ refused err_syntax)
    × (parse_int_0 "0" ≡ parsed (pos 0))
    × (parse_int_0 "9223372036854775808" ≡ refused err_range)
unfolding parse_int_0 parse_uint_0 parse_based underscore_loop
parse_int_0-runs = (refl, refl, refl, refl, refl, refl, refl)

word_of-runs :
    (word_of "--copy=/bin/a=b" ≡ named "copy" (some "/bin/a=b"))
    × (word_of "-v" ≡ named "v" none)
    × (word_of "--" ≡ end_mark)
    × (word_of "-" ≡ not_a_flag)
    × (word_of "--=x" ≡ bad_syntax)
unfolding word_of cut_value
word_of-runs = (refl, refl, refl, refl, refl)

-- No flag of zap's is used.
abbrev zap : String → Option LogFlag
zap name = none

parse-generate_cmd_example :
    parse_command_line zap (arguments (generate_cmd reconciler job) ++ ("sh" ∷ "-ec" ∷ []))
    ≡ stopped (meant reconciler job) ("sh" ∷ "-ec" ∷ [])
parse-generate_cmd_example = parse-generate_cmd zap reconciler job ("sh" ∷ "-ec" ∷ []) (omega arith)

process-stored_run :
    let (ended, ran) = exec host (pod_option reconciler job) [] in
    let after =
      process zap host binaries
        (transport [])
        (served memory)
        (container_args pod_main)
        stored
        [] in
    (result : Option Error) × (ran ≡ returned result)
    × (memory.get_job after.0.server (job_key job)
        ≡ ok (
            set_status (job_in "Scheduled") (
              verdict (job_in "Scheduled").status (
                outcome host
                  (pod_option reconciler job)
                  (dump_logs host (pod_option reconciler job) ended)
                  result))))
unfolding create_pod process parse_command_line parse_flags parse_loop word_of cut_value
    driver_flags parse_int_0 parse_uint_0 parse_based itoa format_nat write_digits digit
    generate_cmd generate_args main new_driver get_grpc_client_conn connect_mode run exec
    running_report complete_report get_results serve_update_status update_status merge_report
    trim_spaces
process-stored_run =
    process-stored zap reconciler job pod_main refl (omega arith) memory memory-IsLawful host
      binaries (transport []) stored [] (λ b. omega (arith, b.0)) (λ b. omega (arith, b.0))
      (job_in "Scheduled") refl refl

-- A disk with the driver's binary.
abbrev image : List (String × String)
image = ("/bin/driver", "driver") ∷ []

process-installs_example :
    let (service, files, exit) =
      process zap host binaries
        (transport [])
        (served memory)
        (container_args (driver_container reconciler))
        stored
        image in
    (service ≡ stored)
    × (((exit ≡ exited 0) × Installed binaries image (program pod_main.command) files)
        ⊎ ((exit ≡ exited 1) × Hindered binaries image (program pod_main.command) files))
unfolding create_pod
process-installs_example =
    process-installs zap reconciler job (driver_container reconciler) pod_main refl refl host
      binaries (binaries-IsRegular dest_driver_path) (transport []) (served memory) stored image

-- A flag that cannot be read.
process-exits_example :
    (n : ℕ) × ((process zap host binaries
        (transport [])
        (served memory)
        ("--grpc-port" ∷ "abc" ∷ [])
        stored
        image).2
      ≡ exited n)
    × (n ≤ 2)
    × ((n ≡ 2) ↔ (parse_command_line zap ("--grpc-port" ∷ "abc" ∷ []) ≡ failed))
process-exits_example =
    process-exits zap host binaries (transport []) (served memory) ("--grpc-port" ∷ "abc" ∷ [])
      stored image

unread-runs : parse_command_line zap ("--grpc-port" ∷ "abc" ∷ []) ≡ failed
unfolding parse_command_line parse_flags parse_loop word_of cut_value driver_flags parse_int_0
    parse_uint_0 parse_based
unread-runs = refl

abbrev after : World memory
after =
    (process zap host binaries (transport []) (served memory) (container_args pod_main) stored []).0

abbrev judged : Option Error → LmEvalJob
judged result =
    let (ended, ran) = exec host (pod_option reconciler job) [] in
    set_status (job_in "Scheduled") (
      verdict (job_in "Scheduled").status (
        outcome host (pod_option reconciler job) (dump_logs host (pod_option reconciler job) ended)
          result))

process-settles_example :
    let settled = (reconcile memory reconciler 9 after (job_key job)).0 in
    (result : Option Error) × ((exec host (pod_option reconciler job) []).1 ≡ returned result)
    × (memory.get_job settled.server (job_key job) ≡ ok (completed 9 (judged result)))
    × ((again : Time)
        → reconcile memory reconciler again settled (job_key job) ≡ (settled, finish none))
unfolding create_pod process parse_command_line parse_flags parse_loop word_of cut_value
    driver_flags parse_int_0 parse_uint_0 parse_based itoa format_nat write_digits digit
    generate_cmd generate_args main new_driver get_grpc_client_conn connect_mode run exec
    running_report complete_report get_results serve_update_status update_status merge_report
    trim_spaces
process-settles_example =
    process-settles zap reconciler job pod_main refl (omega arith) memory memory-IsLawful host
      binaries (transport []) stored [] (λ b. omega (arith, b.0)) (λ b. omega (arith, b.0))
      (job_in "Scheduled") refl refl refl refl refl 9 (λ result run. refl)
