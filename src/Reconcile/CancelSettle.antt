-- ===== src/Reconcile/CancelSettle.antt =====
-- From a cancelled job to one that needs nothing more (handleCancel and handleComplete of
-- backend/controller/lmevaljob_controller.go).
use fms_lm_eval_service.Prelude.{true, ◌≡◌, refl, none, some, Any}
use fms_lm_eval_service.Api.Core.{Time, is_zero_time, ok, NamespacedName, Pod}
use fms_lm_eval_service.Api.Job.{
  LmEvalJob, job_key, cancelled_job_state, complete_job_state, cancelled_reason,
}
use fms_lm_eval_service.Cluster.Interface.{Kube, IsLawful, World}
use fms_lm_eval_service.Pod.Options.{Reconciler}
use fms_lm_eval_service.Reconcile.Base.{finish, set_status, pod_to_delete}
use fms_lm_eval_service.Reconcile.Handlers.{reconcile}
use fms_lm_eval_service.Reconcile.Pods.{IsOwner}
use fms_lm_eval_service.Reconcile.Cancel.{reconcile-cancelled}
use fms_lm_eval_service.Reconcile.Complete.{reconcile-wrapped_up}
use fms_lm_eval_service.Reconcile.Settle.{completed, reconcile-completed}

module _ (K : Kube) (r : Reconciler) (L : IsLawful K) (now later : Time) (w : World K)
    (k : NamespacedName) (job : LmEvalJob) (h : K.get_job w.server k ≡ ok job)
    (z : is_zero_time job.meta.deletion_timestamp ≡ true)
    (cancelled : job.status.state ≡ cancelled_job_state) {t : Time}
    (scheduled : job.status.last_schedule_time ≡ some t)
    (open_end : job.status.complete_time ≡ none) {pod : Pod}
    (found : K.get_pod w.server (job_key job) ≡ ok pod)
    (own : Any (IsOwner job) pod.meta.owner_references) where
  -- The job after the first reconciliation.
  abbrev pub dropped : LmEvalJob
  dropped =
      set_status job (record (job.status) { state = complete_job_state; reason = cancelled_reason })

  abbrev pub after_cancel : World K
  after_cancel = (reconcile K r now w k).0

  -- If the owned pod of a cancelled job without a completion time is deleted, and the status updates
  -- of two reconciliations succeed, then these two are enough: the job is Complete with the reason
  -- Cancelled and a completion time, the rest of it is unchanged, and every later reconciliation
  -- changes nothing and returns neither an error nor a retry.
  pub reconcile-cancel_settles :
      (K.delete_pod w.server (pod_to_delete job)).1 ≡ none
      → (K.update_status (K.delete_pod w.server (pod_to_delete job)).0 dropped).1 ≡ none
      → (K.update_status after_cancel.server (completed later dropped)).1 ≡ none
      → let settled = (reconcile K r later after_cancel k).0 in
        ((reconcile K r now w k).1 ≡ finish none)
        × (K.get_job settled.server k ≡ ok (completed later dropped))
        × ((again : Time) → reconcile K r again settled k ≡ (settled, finish none))
  reconcile-cancel_settles deleted done done' =
      let (stored, outcome) =
        reconcile-cancelled K r L now w k job h z cancelled scheduled found own deleted done in
      let stored' =
        reconcile-completed K r L later after_cancel k dropped stored z refl scheduled open_end
          done' in
      (
        outcome,
        stored',
        λ again.
            reconcile-wrapped_up K r again (reconcile K r later after_cancel k).0 k
              (completed later dropped) stored' z refl scheduled refl,
      )
