-- ===== src/Reconcile/Settle.antt =====
-- From the end of a pod to a job that needs nothing more (checkScheduledPod and handleComplete of
-- backend/controller/lmevaljob_controller.go).
use fms_lm_eval_service.Prelude.{true, ◌≡◌, ◌∙◌, none, some, Any}
use fms_lm_eval_service.Api.Core.{
  Time, is_zero_time, ok, NamespacedName, ContainerStateTerminated, Pod,
}
use fms_lm_eval_service.Api.Job.{LmEvalJob, job_key, complete_job_state}
use fms_lm_eval_service.Cluster.Interface.{Kube, IsLawful, World}
use fms_lm_eval_service.Cluster.Laws.{status_written}
use fms_lm_eval_service.Pod.Options.{Reconciler}
use fms_lm_eval_service.Reconcile.Base.{set_status, terminated_status}
use fms_lm_eval_service.Reconcile.Handlers.{reconcile}
use fms_lm_eval_service.Reconcile.Pods.{IsOwner, HasEnded}
use fms_lm_eval_service.Reconcile.Complete.{handle_complete-noted}
use fms_lm_eval_service.Reconcile.Dispatch.{HasPod, reconcile-scheduled, handle_state_complete}

-- The job with a completion time.
abbrev pub completed : Time → LmEvalJob → LmEvalJob
completed now job = set_status job (record (job.status) { complete_time = some now })

-- The first completion of a job.
module _ (K : Kube) (r : Reconciler) (L : IsLawful K) (now : Time) (w : World K)
    (k : NamespacedName) (job : LmEvalJob) (h : K.get_job w.server k ≡ ok job)
    (z : is_zero_time job.meta.deletion_timestamp ≡ true)
    (complete : job.status.state ≡ complete_job_state) {t : Time}
    (scheduled : job.status.last_schedule_time ≡ some t)
    (open_end : job.status.complete_time ≡ none) where
  pub reconcile-completed :
      (K.update_status w.server (completed now job)).1 ≡ none
      → K.get_job (reconcile K r now w k).0.server k ≡ ok (completed now job)
  reconcile-completed done =
      rw
        (reconcile-scheduled K r now w k job h z scheduled
          ∙ handle_state_complete K r now w job complete)
        (rw (handle_complete-noted K r now w job open_end)
          (status_written K L w.server k job h _ done))

module _ (K : Kube) (r : Reconciler) (L : IsLawful K) (now later : Time) (w : World K)
    (k : NamespacedName) (job : LmEvalJob) (h : K.get_job w.server k ≡ ok job)
    (z : is_zero_time job.meta.deletion_timestamp ≡ true) (has_pod : HasPod job.status) {t : Time}
    (scheduled : job.status.last_schedule_time ≡ some t)
    (open_end : job.status.complete_time ≡ none) {pod : Pod}
    (found : K.get_pod w.server (job_key job) ≡ ok pod)
    (own : Any (IsOwner job) pod.meta.owner_references) {end : ContainerStateTerminated}
    (ended : HasEnded pod end) where
  -- The job after the first reconciliation.
  abbrev pub judged : LmEvalJob
  judged = set_status job (terminated_status job.status end)

  abbrev pub after_end : World K
  after_end = (reconcile K r now w k).0
