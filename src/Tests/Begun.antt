-- ===== src/Tests/Begun.antt =====
-- A whole life of a job: the job of Tests/Begin, and the driver and the file system of Tests/Driver.
use fms_lm_eval_service.Prelude.{◌≡◌, refl, none, some, [], Option, arith, String}
use fms_lm_eval_service.Api.Core.{Time, Error, ok}
use fms_lm_eval_service.Api.Job.{LmEvalJob}
use fms_lm_eval_service.Text.Decimal.{itoa, format_nat, write_digits, digit}
use fms_lm_eval_service.Text.LogFlag.{LogFlag}
use fms_lm_eval_service.Text.Strings.{trim_spaces}
use fms_lm_eval_service.Text.ParseBase.{parse_based, parse_uint_0, parse_int_0}
use fms_lm_eval_service.Text.Flag.{cut_value, word_of, parse_loop, parse_flags}
use fms_lm_eval_service.Cluster.Interface.{World}
use fms_lm_eval_service.Cluster.Memory.{memory, memory-IsLawful}
use fms_lm_eval_service.Grpc.Status.{merge_report, update_status, serve_update_status}
use fms_lm_eval_service.Pod.Command.{generate_cmd, generate_args}
use fms_lm_eval_service.Pod.Build.{create_pod}
use fms_lm_eval_service.Reconcile.Base.{set_status, scheduled_status, finish, treat_as_new}
use fms_lm_eval_service.Reconcile.Handlers.{
  reconcile, handle_state, dispatch, handle_new_cr, attach_finalizer, schedule_pod,
}
use fms_lm_eval_service.Reconcile.Begin.{as_new}
use fms_lm_eval_service.Reconcile.Settle.{completed}
use fms_lm_eval_service.Driver.Connect.{connect_mode, get_grpc_client_conn, new_driver}
use fms_lm_eval_service.Driver.Run.{
  returned, exec, outcome, dump_logs, get_results, run, running_report, complete_report,
}
use fms_lm_eval_service.Driver.Report.{served, verdict}
use fms_lm_eval_service.Driver.Main.{main}
use fms_lm_eval_service.Driver.Process.{driver_flags, parse_command_line, process}
use fms_lm_eval_service.Driver.CommandLine.{pod_option, container_args}
use fms_lm_eval_service.Lifecycle.Begun.{reconcile-completes}
use fms_lm_eval_service.Tests.Data.{reconciler, job, key}
use fms_lm_eval_service.Tests.Pod.{pod_main, transport}
use fms_lm_eval_service.Tests.Driver.{host, binaries}
use fms_lm_eval_service.Tests.Begin.{bare, before, begun, made}

abbrev zap : String → Option LogFlag
zap name = none

abbrev two : World memory
two = (reconcile memory reconciler 8 begun key).0

abbrev scheduled : LmEvalJob
scheduled = set_status job (scheduled_status 8 job.status made)

abbrev ran : World memory
ran = (process zap host binaries (transport []) (served memory) (container_args pod_main) two []).0

abbrev reported : Option Error → LmEvalJob
reported result =
    let option = pod_option reconciler (as_new job) in
    set_status scheduled (
      verdict scheduled.status
        (outcome host option (dump_logs host option (exec host option []).0) result))

reconcile-completes_example :
    let settled = (reconcile memory reconciler 9 ran key).0 in
    (result : Option Error) × ((exec host (pod_option reconciler (as_new job)) []).1
      ≡ returned result)
    × (memory.get_job settled.server key ≡ ok (completed 9 (reported result)))
    × ((reported result).status.last_schedule_time ≡ some 8)
    × ((again : Time) → reconcile memory reconciler again settled key ≡ (settled, finish none))
unfolding create_pod process parse_command_line parse_flags parse_loop word_of cut_value
    driver_flags parse_int_0 parse_uint_0 parse_based itoa format_nat write_digits digit
    generate_cmd generate_args main new_driver get_grpc_client_conn connect_mode run exec
    running_report complete_report get_results serve_update_status update_status merge_report
    trim_spaces reconcile handle_state dispatch handle_new_cr attach_finalizer schedule_pod
    treat_as_new
reconcile-completes_example =
    reconcile-completes memory reconciler memory-IsLawful 7 8 before key bare refl refl refl refl
      refl job refl refl refl made refl refl zap (omega arith) host binaries (transport []) []
      (λ b. omega (arith, b.0)) (λ b. omega (arith, b.0)) pod_main refl refl 9 (λ result run. refl)
