-- ===== src/Tests/Reconcile.antt =====
-- The theorems about Reconcile at concrete clusters.
use fms_lm_eval_service.Prelude.{◌≡◌, false, refl, none, some, [], ◌∷◌, ap, str_ne, inl, Any}
use fms_lm_eval_service.Api.Core.{Time, ok, err}
use fms_lm_eval_service.Api.Job.{LmEvalJob, LmEvalJobStatus, finalizer_name}
use fms_lm_eval_service.Cluster.Memory.{memory, memory-IsLawful, not_found}
use fms_lm_eval_service.Reconcile.Base.{
  get_pod, finish, check_later, delete_job_pod, set_status, failed_status, cancelled_status,
}
use fms_lm_eval_service.Reconcile.Handlers.{reconcile, schedule_pod, handle_deletion}
use fms_lm_eval_service.Reconcile.Release.{reconcile-released}
use fms_lm_eval_service.Reconcile.Diagram.{Moves}
use fms_lm_eval_service.Reconcile.Moves.{StoredWith, reconcile-Moves}
use fms_lm_eval_service.Reconcile.Complete.{reconcile-wrapped_up, reconcile-refused_pod}
use fms_lm_eval_service.Reconcile.Pods.{IsOwner}
use fms_lm_eval_service.Reconcile.Cancel.{reconcile-cancel_refused, reconcile-cancelled}
use fms_lm_eval_service.Reconcile.Frame.{reconcile-other_job, reconcile-other_pod}
use fms_lm_eval_service.Tests.Data.{
  reconciler, job, key, job_in, ended_pod, quota, cluster, world, new_status,
}

reconcile-Moves_example :
    StoredWith memory
      (Moves 7 new_status)
      (reconcile memory reconciler 7 (world (cluster job (err not_found) none)) key).0
      key
reconcile-Moves_example =
    reconcile-Moves memory reconciler memory-IsLawful 7 (world (cluster job (err not_found) none))
      key job refl refl

reconcile-other_job_example :
    let w = world (cluster job (err not_found) none) in
    memory.get_job
      (reconcile memory reconciler 7 w key).0.server
      (record { namespace = "default"; name = "other" })
    ≡ err not_found
reconcile-other_job_example =
    reconcile-other_job memory reconciler memory-IsLawful 7
      (world (cluster job (err not_found) none)) key
      (record { namespace = "default"; name = "other" })
      (λ e. str_ne "other" "test" refl (ap (λ k. k.name) e))

reconcile-other_pod_run :
    let w = world (cluster job (err not_found) none) in
    memory.get_pod
      (reconcile memory reconciler 7 w key).0.server
      (record { namespace = "default"; name = "other" })
    ≡ err not_found
reconcile-other_pod_run =
    reconcile-other_pod memory reconciler memory-IsLawful 7
      (world (cluster job (err not_found) none)) key
      (record { namespace = "default"; name = "other" }) job refl
      (λ e. str_ne "other" "test" refl (ap (λ k. k.name) e))
      (λ e. str_ne "other" "" refl (ap (λ k. k.name) e))

abbrev finished : LmEvalJob
finished = record job { status = record (job_in "Complete").status { complete_time = some 9 } }

reconcile-wrapped_up_run :
    reconcile memory reconciler 11 (world (cluster finished (ok ended_pod) none)) key
    ≡ (world (cluster finished (ok ended_pod) none), finish none)
reconcile-wrapped_up_run =
    reconcile-wrapped_up memory reconciler 11 (world (cluster finished (ok ended_pod) none)) key
      finished refl refl refl refl refl

reconcile-refused_pod_example :
    let w = world (cluster job (err not_found) (some quota)) in
    let u = reconcile memory reconciler 7 w key in
    (memory.get_job u.0.server key ≡ ok (set_status job (failed_status new_status quota)))
    × (u.1 ≡ finish (some quota))
    × ((later : Time)
        → reconcile memory reconciler later u.0 key
          ≡ schedule_pod memory reconciler later u.0
              (set_status job (record (failed_status new_status quota) { state = "New" })))
reconcile-refused_pod_example =
    reconcile-refused_pod memory reconciler 7 (world (cluster job (err not_found) (some quota))) key
      job refl refl memory-IsLawful refl refl refl refl

abbrev running : LmEvalJob
running = job_in "Running"

abbrev owned :
    (status : LmEvalJobStatus)
    → Any (IsOwner (set_status job status)) ended_pod.meta.owner_references
owned status = inl (record { same_version = refl; same_kind = refl; same_name = refl })

abbrev cancelled : LmEvalJob
cancelled = job_in "Cancelled"

-- The status names a pod that is not there, so its deletion fails.
abbrev misnamed : LmEvalJob
misnamed = record job { status = record cancelled.status { pod_name = "other" } }

reconcile-cancel_refused_run :
    let w = world (cluster misnamed (ok ended_pod) none) in
    (memory.get_job (reconcile memory reconciler 7 w key).0.server key ≡ ok misnamed)
    × ((reconcile memory reconciler 7 w key).1 ≡ check_later reconciler (some not_found))
reconcile-cancel_refused_run =
    reconcile-cancel_refused memory reconciler memory-IsLawful 7
      (world (cluster misnamed (ok ended_pod) none)) key misnamed refl refl refl refl refl
      (owned misnamed.status) refl

reconcile-cancelled_run :
    let w = world (cluster cancelled (ok ended_pod) none) in
    (memory.get_job (reconcile memory reconciler 7 w key).0.server key
      ≡ ok (set_status cancelled (cancelled_status cancelled.status)))
    × ((reconcile memory reconciler 7 w key).1 ≡ finish none)
reconcile-cancelled_run =
    reconcile-cancelled memory reconciler memory-IsLawful 7
      (world (cluster cancelled (ok ended_pod) none)) key cancelled refl refl refl refl refl
      (owned cancelled.status) refl refl

-- A job that is being deleted and that another controller holds as well.
abbrev doomed : LmEvalJob
doomed = record job {
  meta = record job.meta {
    finalizers = finalizer_name ∷ "other" ∷ [];
    deletion_timestamp = some 9;
  };
}

abbrev left : LmEvalJob
left = record doomed { meta = record doomed.meta { finalizers = "other" ∷ [] } }

reconcile-released_example : memory.contains_finalizer left.meta.finalizers finalizer_name ≡ false
unfolding reconcile handle_deletion delete_job_pod
reconcile-released_example =
    reconcile-released memory reconciler memory-IsLawful 7
      (world (cluster doomed (ok ended_pod) none)) key doomed refl refl refl left refl

abbrev settled : LmEvalJob
settled = record running {
  status = record running.status {
    state = "Complete";
    reason = "Failed";
    message = "Error";
    complete_time = some 8;
  };
}
