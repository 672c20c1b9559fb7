-- ===== src/Tests/Lifecycle.antt =====
-- The theorems about the system at a run: the driver reports that it runs, the pod's end is seen.
use fms_lm_eval_service.Prelude.{List, ◌++◌, ◌≡◌, refl, some, inl, inr, none, str_ne}
use fms_lm_eval_service.Text.Strings.{trim_spaces}
use fms_lm_eval_service.Api.Core.{ok, err}
use fms_lm_eval_service.Api.Job.{LmEvalJob}
use fms_lm_eval_service.Cluster.Interface.{Kube, World}
use fms_lm_eval_service.Cluster.Memory.{memory, memory-IsLawful, not_found}
use fms_lm_eval_service.Grpc.Status.{merge_report, update_status, serve_update_status}
use fms_lm_eval_service.Driver.Run.{running_report}
use fms_lm_eval_service.Reconcile.Base.{
  get_pod, owned_by, main_status, main_terminated, terminated_status, treat_as_new, set_status,
}
use fms_lm_eval_service.Reconcile.Handlers.{check_scheduled_pod, dispatch, handle_state, reconcile}
use fms_lm_eval_service.Lifecycle.Change.{IsSound}
use fms_lm_eval_service.Lifecycle.System.{seen, Reach, here, next, reconciled, reported}
use fms_lm_eval_service.Lifecycle.Refine.{Follows, Step-Follows}
use fms_lm_eval_service.Lifecycle.Pods.{CreatesNone, Reach-CreatesNone}
use fms_lm_eval_service.Reconcile.Calls.{Call}
use fms_lm_eval_service.Reconcile.Trace.{Planned, reconcile-Plan}
use fms_lm_eval_service.Tests.Logged.{logged, logged-IsLawful, logged-Logs, unlogged}
use fms_lm_eval_service.Lifecycle.Laws.{Reach-IsSound, Reach-scheduled_once}
use fms_lm_eval_service.Tests.Data.{reconciler, job_in, key, ended_pod, cluster, world}
use fms_lm_eval_service.Tests.Driver.{option}

abbrev pub scheduled : LmEvalJob
scheduled = job_in "Scheduled"

abbrev pub first : World memory
first = world (cluster scheduled (ok ended_pod) none)

abbrev pub told : World memory
told = (serve_update_status memory first (running_report option)).0

abbrev pub last : World memory
last = (reconcile memory reconciler 9 told key).0

pub scheduled-IsSound : IsSound scheduled.status
scheduled-IsSound = record {
  known = inr (inl refl);
  judged = λ e. absurd (str_ne "Scheduled" "Complete" refl e);
  scheduled = λ e. (5, refl);
}

steps : Reach memory reconciler key first last
steps =
    next (next here (reported (running_report option) (option, inl refl) refl))
      (reconciled 9 key refl)

abbrev pub ended : LmEvalJob
ended =
    set_status scheduled
      (record (scheduled.status) { state = "Complete"; reason = "Failed"; message = "Error" })

pub is_ended : memory.get_job last.server key ≡ ok ended
unfolding reconcile handle_state dispatch check_scheduled_pod treat_as_new get_pod owned_by
    main_terminated main_status terminated_status serve_update_status update_status trim_spaces
    merge_report running_report
is_ended = refl

Reach-IsSound_example : IsSound ended.status
Reach-IsSound_example =
    Reach-IsSound memory reconciler memory-IsLawful key scheduled ended refl scheduled-IsSound steps
      is_ended

Reach-scheduled_once_example :
    (ended.status.last_schedule_time ≡ some 5) × (ended.status.pod_name ≡ scheduled.status.pod_name)
Reach-scheduled_once_example =
    Reach-scheduled_once memory reconciler memory-IsLawful key scheduled ended refl
      scheduled-IsSound steps is_ended refl

abbrev kube : Kube
kube = logged memory

abbrev begun : World kube
begun = unlogged memory (cluster scheduled (ok ended_pod) none)

abbrev noted : World kube
noted = (serve_update_status kube begun (running_report option)).0

abbrev pub running : LmEvalJob
running = set_status scheduled (record (scheduled.status) {
  state = "Running";
  reason = "NoReason";
  message = "update status from the driver: running";
})

told_once : Reach kube reconciler key begun noted
told_once = next here (reported (running_report option) (option, inl refl) refl)

is_running : kube.get_job noted.server key ≡ ok running
unfolding serve_update_status update_status trim_spaces merge_report running_report
is_running = refl

Step-Follows_example : Follows (seen kube reconciler key begun) (seen kube reconciler key noted)
Step-Follows_example =
    Step-Follows kube reconciler (logged-IsLawful memory memory-IsLawful) key begun noted
      (reported (running_report option) (option, inl refl) refl)

-- The job before its pod.
abbrev waiting : LmEvalJob
waiting =
    set_status scheduled
      (record (scheduled.status) { pod_name = ""; state = ""; last_schedule_time = none })

abbrev unstarted : World kube
unstarted = unlogged memory (cluster waiting (err not_found) none)

reconcile-Plan_example :
    Planned kube reconciler
      (λ s. s.1)
      (logged-Logs memory)
      9
      unstarted
      waiting
      (reconcile kube reconciler 9 unstarted key).0
reconcile-Plan_example =
    reconcile-Plan kube reconciler (λ s. s.1) (logged-Logs memory) 9 unstarted key waiting refl

Reach-CreatesNone_example :
    (calls : List Call) × ((reconcile kube reconciler 9 noted key).0.server.1
      ≡ noted.server.1 ++ calls)
    × CreatesNone calls
Reach-CreatesNone_example =
    Reach-CreatesNone kube reconciler (logged-IsLawful memory memory-IsLawful) key (λ s. s.1)
      (logged-Logs memory) scheduled running refl scheduled-IsSound refl told_once is_running 9
