-- ===== src/Tests/Begin.antt =====
-- The theorems about the beginning of a job and about its cancellation, at a cluster in memory.
use fms_lm_eval_service.Prelude.{◌≡◌, refl, none, [], inl}
use fms_lm_eval_service.Api.Core.{Time, ok, err, Pod}
use fms_lm_eval_service.Api.Job.{LmEvalJob}
use fms_lm_eval_service.Cluster.Interface.{World}
use fms_lm_eval_service.Cluster.Memory.{memory, memory-IsLawful, not_found}
use fms_lm_eval_service.Pod.Build.{create_pod}
use fms_lm_eval_service.Reconcile.Base.{
  get_pod, finish, check_later, set_status, scheduled_status, cancelled_status, treat_as_new,
}
use fms_lm_eval_service.Reconcile.Handlers.{
  reconcile, handle_state, dispatch, handle_new_cr, attach_finalizer, handle_cancel,
}
use fms_lm_eval_service.Reconcile.Settle.{completed}
use fms_lm_eval_service.Reconcile.Begin.{as_new, reconcile-begins}
use fms_lm_eval_service.Reconcile.CancelSettle.{reconcile-cancel_settles}
use fms_lm_eval_service.Tests.Data.{reconciler, job, key, job_in, ended_pod, cluster, world}

-- The job before the controller has seen it.
abbrev pub bare : LmEvalJob
bare = record job { meta = record job.meta { finalizers = [] } }

abbrev pub before : World memory
before = world (cluster bare (err not_found) none)

abbrev pub begun : World memory
begun = (reconcile memory reconciler 7 before key).0

abbrev pub made : Pod
made = create_pod reconciler (as_new job)

reconcile-begins_example :
    let running = (reconcile memory reconciler 8 begun key).0 in
    let scheduled = set_status job (scheduled_status 8 job.status made) in
    (memory.get_job running.server key ≡ ok scheduled)
    × (get_pod memory running scheduled ≡ ok made)
    × ((reconcile memory reconciler 8 begun key).1 ≡ check_later reconciler none)
unfolding reconcile handle_state dispatch handle_new_cr attach_finalizer treat_as_new create_pod
reconcile-begins_example =
    reconcile-begins memory reconciler memory-IsLawful 7 8 before key bare refl refl refl refl refl
      job refl refl made refl refl

abbrev cancelled : LmEvalJob
cancelled = job_in "Cancelled"

reconcile-cancel_settles_example :
    let w = world (cluster cancelled (ok ended_pod) none) in
    let dropped = set_status cancelled (cancelled_status cancelled.status) in
    let settled = (reconcile memory reconciler 8 (reconcile memory reconciler 7 w key).0 key).0 in
    ((reconcile memory reconciler 7 w key).1 ≡ finish none)
    × (memory.get_job settled.server key ≡ ok (completed 8 dropped))
    × ((again : Time) → reconcile memory reconciler again settled key ≡ (settled, finish none))
unfolding reconcile handle_state dispatch handle_cancel treat_as_new get_pod
reconcile-cancel_settles_example =
    reconcile-cancel_settles memory reconciler memory-IsLawful 7 8
      (world (cluster cancelled (ok ended_pod) none)) key cancelled refl refl refl refl refl refl
      (inl (record { same_version = refl; same_kind = refl; same_name = refl })) refl refl refl
