-- ===== src/Reconcile/Cancel.antt =====
-- Cancelled jobs under Reconcile: handleCancel (backend/controller/lmevaljob_controller.go).
use fms_lm_eval_service.Prelude.{◌≡◌, refl, true, ◌∙◌, none, some, Any}
use fms_lm_eval_service.Api.Core.{Time, is_zero_time, Error, ok, NamespacedName, Pod}
use fms_lm_eval_service.Api.Job.{
  LmEvalJob, job_key, cancelled_job_state, complete_job_state, cancelled_reason,
}
use fms_lm_eval_service.Cluster.Interface.{Kube, IsLawful, World}
use fms_lm_eval_service.Cluster.Laws.{status_written}
use fms_lm_eval_service.Pod.Options.{Reconciler}
use fms_lm_eval_service.Reconcile.Base.{
  finish, check_later, set_status, pod_to_delete, cancelled_status, get_pod,
}
use fms_lm_eval_service.Reconcile.Handlers.{handle_cancel, reconcile}
use fms_lm_eval_service.Reconcile.Pods.{IsOwner, get_pod-owned}
use fms_lm_eval_service.Reconcile.Dispatch.{reconcile-scheduled, handle_state-cancelled}

module _ (K : Kube) (r : Reconciler) (w : World K) (job : LmEvalJob) where
  cancel-refused :
      {pod : Pod} {e : Error}
      → get_pod K w job ≡ ok pod
      → (K.delete_pod w.server (pod_to_delete job)).1 ≡ some e
      → ((handle_cancel K r w job).0.server ≡ (K.delete_pod w.server (pod_to_delete job)).0)
        × ((handle_cancel K r w job).1 ≡ check_later r (some e))
  cancel-refused got refused =
      unfold handle_cancel in rw (handle_cancel, got) (rw refused (refl, refl))

  cancel-deleted :
      {pod : Pod}
      → get_pod K w job ≡ ok pod
      → (K.delete_pod w.server (pod_to_delete job)).1 ≡ none
      → let pushed =
          K.update_status
            (K.delete_pod w.server (pod_to_delete job)).0
            (set_status job (cancelled_status job.status)) in
        ((handle_cancel K r w job).0.server ≡ pushed.0)
        × ((handle_cancel K r w job).1 ≡ finish pushed.1)
  cancel-deleted got deleted =
      unfold handle_cancel in rw (handle_cancel, got) (rw deleted (refl, refl))

-- A cancelled job with its schedule time, under the key, and its pod, which names it as an owner.
module _ (K : Kube) (r : Reconciler) (L : IsLawful K) (now : Time) (w : World K)
    (k : NamespacedName) (job : LmEvalJob) (h : K.get_job w.server k ≡ ok job)
    (z : is_zero_time job.meta.deletion_timestamp ≡ true)
    (cancelled : job.status.state ≡ cancelled_job_state) {t : Time}
    (scheduled : job.status.last_schedule_time ≡ some t) {pod : Pod}
    (found : K.get_pod w.server (job_key job) ≡ ok pod)
    (own : Any (IsOwner job) pod.meta.owner_references) where
  to_cancel : reconcile K r now w k ≡ handle_cancel K r w job
  to_cancel =
      reconcile-scheduled K r now w k job h z scheduled
      ∙ handle_state-cancelled K r now w job cancelled

  kept : K.get_job (K.delete_pod w.server (pod_to_delete job)).0 k ≡ ok job
  kept = L.delete_pod_jobs w.server (pod_to_delete job) k ∙ h

  -- If the API refuses to delete the pod, the stored job is unchanged, so it stays cancelled; the
  -- error is returned, with a retry after the configured interval.
  pub reconcile-cancel_refused :
      {e : Error}
      → (K.delete_pod w.server (pod_to_delete job)).1 ≡ some e
      → (K.get_job (reconcile K r now w k).0.server k ≡ ok job)
        × ((reconcile K r now w k).1 ≡ check_later r (some e))
  reconcile-cancel_refused refused =
      let (server, outcome) = cancel-refused K r w job (get_pod-owned K w job found own) refused in
      (rw (to_cancel, server) kept, rw (to_cancel, outcome))

  -- If the pod is deleted and the status update succeeds, the stored job becomes Complete with the
  -- reason Cancelled, the rest of it is unchanged, and neither an error nor a retry is returned.
  pub reconcile-cancelled :
      (K.delete_pod w.server (pod_to_delete job)).1 ≡ none
      → (K.update_status
          (K.delete_pod w.server (pod_to_delete job)).0
          (set_status job (cancelled_status job.status))).1
        ≡ none
      → (K.get_job (reconcile K r now w k).0.server k
          ≡ ok (
              set_status job
                (record (job.status) { state = complete_job_state; reason = cancelled_reason })))
        × ((reconcile K r now w k).1 ≡ finish none)
  reconcile-cancelled deleted done =
      let (server, outcome) = cancel-deleted K r w job (get_pod-owned K w job found own) deleted in
      (
        rw (to_cancel, server) (status_written K L _ k job kept _ done),
        rw (to_cancel, outcome, done),
      )
