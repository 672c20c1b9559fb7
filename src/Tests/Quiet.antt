-- ===== src/Tests/Quiet.antt =====
-- How often the controller changes a job, at the run of Tests/Lifecycle.
use fms_lm_eval_service.Prelude.{◌≤◌, ◌+◌, ◌≡◌, refl, ap, ◌≢◌, inl, some, str_ne}
use fms_lm_eval_service.Text.Strings.{trim_spaces}
use fms_lm_eval_service.Cluster.Memory.{memory, memory-IsLawful}
use fms_lm_eval_service.Grpc.Status.{merge_report, update_status, serve_update_status}
use fms_lm_eval_service.Driver.Run.{running_report}
use fms_lm_eval_service.Lifecycle.System.{seen}
use fms_lm_eval_service.Lifecycle.Quiet.{Counted, begin, acted, report, Counted-bound}
use fms_lm_eval_service.Tests.Data.{reconciler, key}
use fms_lm_eval_service.Tests.Driver.{option}
use fms_lm_eval_service.Tests.Lifecycle.{
  scheduled, first, told, last, ended, running, scheduled-IsSound, is_ended,
}

told_running : seen memory reconciler key told ≡ some running.status
unfolding serve_update_status update_status trim_spaces merge_report running_report
told_running = refl

now_ended : seen memory reconciler key last ≡ some ended.status
now_ended = rw is_ended refl

moved : seen memory reconciler key last ≢ seen memory reconciler key told
moved e =
    let same : ended.status ≡ running.status = cc (e, now_ended, told_running) in
    str_ne "Complete" "Running" refl (ap (λ s. s.state) same)

run : Counted memory reconciler key first 1 1 last
run = acted (report begin (running_report option) (option, inl refl) refl) 9 key refl moved

Counted-bound_example : 1 ≤ 1 + 3
Counted-bound_example =
    Counted-bound memory reconciler key memory-IsLawful scheduled refl scheduled-IsSound 5 refl run
