-- ===== src/Reconcile/Watch.antt =====
-- How a job's end is read off its pod: checkScheduledPod under Reconcile
-- (backend/controller/lmevaljob_controller.go).
use fms_lm_eval_service.Prelude.{true, ◌≡◌, refl, ◌∙◌, some}
use fms_lm_eval_service.Api.Core.{
  Time, is_zero_time, ok, NamespacedName, ContainerStateTerminated, Pod,
}
use fms_lm_eval_service.Api.Job.{LmEvalJob}
use fms_lm_eval_service.Cluster.Interface.{Kube, IsLawful, World}
use fms_lm_eval_service.Pod.Options.{Reconciler}
use fms_lm_eval_service.Reconcile.Base.{
  finish, set_status, main_terminated, terminated_status, get_pod,
}
use fms_lm_eval_service.Reconcile.Handlers.{check_scheduled_pod, reconcile}
use fms_lm_eval_service.Reconcile.Dispatch.{HasPod, reconcile-scheduled, handle_state-pod}

-- What `checkScheduledPod` does with a pod, by how its main container stands.
module _ (K : Kube) (r : Reconciler) (w : World K) (job : LmEvalJob) {pod : Pod}
    (got : get_pod K w job ≡ ok pod) where
  pub check-ended :
      {end : ContainerStateTerminated}
      → main_terminated pod ≡ some end
      → let pushed = K.update_status w.server (set_status job (terminated_status job.status end)) in
        ((check_scheduled_pod K r w job).0.server ≡ pushed.0)
        × ((check_scheduled_pod K r w job).1 ≡ finish pushed.1)
  check-ended ended =
      unfold check_scheduled_pod in rw (check_scheduled_pod, got) (rw ended (refl, refl))

-- A job that is scheduled or running, with its schedule time, under the key.
module _ (K : Kube) (r : Reconciler) (L : IsLawful K) (now : Time) (w : World K)
    (k : NamespacedName) (job : LmEvalJob) (h : K.get_job w.server k ≡ ok job)
    (z : is_zero_time job.meta.deletion_timestamp ≡ true) (has_pod : HasPod job.status) {t : Time}
    (scheduled : job.status.last_schedule_time ≡ some t) where
  pub to_check : reconcile K r now w k ≡ check_scheduled_pod K r w job
  to_check =
      reconcile-scheduled K r now w k job h z scheduled ∙ handle_state-pod K r now w job has_pod
