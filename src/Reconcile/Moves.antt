-- ===== src/Reconcile/Moves.antt =====
-- Reconcile and the state diagram of a job (backend/controller/lmevaljob_controller.go).
use fms_lm_eval_service.Prelude.{
  true, ◌≡◌, subst, ◌∙◌, inl, inr, Option, none, some, Bool-cases, Option-cases,
}
use fms_lm_eval_service.Api.Core.{
  Time, is_zero_time, Error, Result, ok, Result-cases, NamespacedName, ContainerStateTerminated,
  Pod,
}
use fms_lm_eval_service.Api.Job.{LmEvalJob, LmEvalJobStatus, job_key, new_job_state, finalizer_name}
use fms_lm_eval_service.Cluster.Interface.{Kube, IsLawful, World, push_status, push_job}
use fms_lm_eval_service.Pod.Options.{Reconciler}
use fms_lm_eval_service.Pod.Build.{create_pod}
use fms_lm_eval_service.Reconcile.Base.{
  set_status, treat_as_new, treat_as_new-unscheduled, treat_as_new-scheduled, set_finalizers,
  pod_to_delete, failed_status, scheduled_status, cancelled_status, main_terminated,
  terminated_status, get_pod, delete_job_pod,
}
use fms_lm_eval_service.Reconcile.Dispatch.{handle_state-cases, reconcile-live}
use fms_lm_eval_service.Reconcile.Handlers.{
  attach_finalizer, schedule_pod, handle_new_cr, check_scheduled_pod, handle_complete,
  handle_cancel, handle_state, reconcile,
}
use fms_lm_eval_service.Reconcile.Diagram.{
  Moves, stay, schedule, no_pod, pod_lost, wrap_up, cancel, cancel_lost, terminated_status-Moves,
}

module _ (K : Kube) where
  -- A job is stored under the key, with a status that satisfies `P`.
  abbrev pub StoredWith : (LmEvalJobStatus → Type 0) → World K → NamespacedName → Type 0
  StoredWith P w k = (job : LmEvalJob) × (K.get_job w.server k ≡ ok job) × P job.status

module _ (K : Kube) (r : Reconciler) (L : IsLawful K) (P : LmEvalJobStatus → Type 0) where
  pub push_status-StoredWith :
      (w : World K) (job stored : LmEvalJob) (status : LmEvalJobStatus)
      → K.get_job w.server (job_key job) ≡ ok stored
      → P stored.status
      → P status
      → StoredWith K P (push_status K w (set_status job status)).0 (job_key job)
  push_status-StoredWith w job stored status h p q =
      elim (L.update_status_failed w.server (set_status job status)) [
        | inl e ↦ (stored, e ∙ h, p)
        | inr e ↦ (record stored { status = status }, e ∙ rw h, q)
      ]

  module _ (w : World K) (job stored : LmEvalJob) (h : K.get_job w.server (job_key job) ≡ ok stored)
      (p : P stored.status) where
    schedule_pod-StoredWith :
        (now : Time)
        → ((e : Error) → P (failed_status job.status e))
        → ((pod : Pod) → P (scheduled_status now job.status pod))
        → StoredWith K P (schedule_pod K r now w job).0 (job_key job)
    unfolding schedule_pod
    schedule_pod-StoredWith now q₁ q₂ = elim (Result-cases made.1) [
      | inl (pod, e) ↦
          let pushed = push_status K w' (set_status job (scheduled_status now job.status pod)) in
          let stands = push_status-StoredWith w' job stored _ h' p (q₂ pod) in
          elim (Option-cases pushed.1) [
            | inl done ↦ rw (e, schedule_pod, done) stands
            | inr (_, failed) ↦ rw (e, schedule_pod, failed) stands
          ]
      | inr (e, eq) ↦ rw (eq, schedule_pod) (push_status-StoredWith w' job stored _ h' p (q₁ e))
    ]
      where
        made : K.Server × Result Pod
        made = K.create_pod w.server (create_pod r job)

        w' : World K
        w' = record w { server = made.0 }

        h' : K.get_job made.0 (job_key job) ≡ ok stored
        h' = L.create_pod_jobs w.server (create_pod r job) (job_key job) ∙ h

    attach_finalizer-StoredWith :
        is_zero_time stored.meta.deletion_timestamp ≡ true
        → StoredWith K P (attach_finalizer K r w job).0 (job_key job)
    unfolding attach_finalizer
    attach_finalizer-StoredWith z =
        let (after, e, same) = L.update_kept w.server attached stored h z in
        let stands : StoredWith K P (push_job K w attached).0 (job_key job) =
          (after, e, rw same p) in
        elim (Option-cases (push_job K w attached).1) [
          | inl done ↦ rw (attach_finalizer, done) stands
          | inr (_, failed) ↦ rw (attach_finalizer, failed) stands
        ]
      where
        attached : LmEvalJob
        attached = set_finalizers job (K.add_finalizer job.meta.finalizers finalizer_name)

    check_scheduled_pod-StoredWith :
        ((e : Error) → P (failed_status job.status e))
        → ((t : ContainerStateTerminated) → P (terminated_status job.status t))
        → StoredWith K P (check_scheduled_pod K r w job).0 (job_key job)
    unfolding check_scheduled_pod
    check_scheduled_pod-StoredWith q₁ q₂ = elim (Result-cases (get_pod K w job)) [
      | inl (pod, e) ↦ elim (Option-cases (main_terminated pod)) [
        | inl wait ↦ rw (e, wait, check_scheduled_pod) (stored, h, p)
        | inr (t, ended) ↦
            rw (e, check_scheduled_pod)
              (rw ended (push_status-StoredWith w job stored _ h p (q₂ t)))
      ]
      | inr (e, eq) ↦
          let pushed = push_status K w (set_status job (failed_status job.status e)) in
          let stands = push_status-StoredWith w job stored _ h p (q₁ e) in
          elim (Option-cases pushed.1) [
            | inl done ↦ rw (eq, check_scheduled_pod, done) stands
            | inr (_, failed) ↦ rw (eq, check_scheduled_pod, failed) stands
          ]
    ]

    handle_complete-StoredWith :
        (now : Time)
        → (job.status.complete_time ≡ none → P (record (job.status) { complete_time = some now }))
        → StoredWith K P (handle_complete K r now w job).0 (job_key job)
    unfolding handle_complete
    handle_complete-StoredWith now q = elim (Option-cases job.status.complete_time) [
      | inl open_end ↦
          rw (handle_complete, open_end) (push_status-StoredWith w job stored _ h p (q open_end))
      | inr (_, ended) ↦ rw (handle_complete, ended) (stored, h, p)
    ]

    handle_new_cr-StoredWith :
        (now : Time)
        → is_zero_time stored.meta.deletion_timestamp ≡ true
        → ((e : Error) → P (failed_status job.status e))
        → ((pod : Pod) → P (scheduled_status now job.status pod))
        → StoredWith K P (handle_new_cr K r now w job).0 (job_key job)
    handle_new_cr-StoredWith now z q₁ q₂ =
        elim (Bool-cases (K.contains_finalizer job.meta.finalizers finalizer_name)) [
          | inl held ↦
              unfold handle_new_cr in rw (handle_new_cr, held) (schedule_pod-StoredWith now q₁ q₂)
          | inr lacks ↦
              unfold handle_new_cr in rw (handle_new_cr, lacks) (attach_finalizer-StoredWith z)
        ]

    handle_cancel-StoredWith :
        ((e : Error) → P (failed_status job.status e))
        → P (cancelled_status job.status)
        → StoredWith K P (handle_cancel K r w job).0 (job_key job)
    handle_cancel-StoredWith q₁ q₂ = elim (Result-cases (get_pod K w job)) [
      | inl (pod, e) ↦ elim (Option-cases dropped.1) [
        | inl done ↦
            unfold handle_cancel in
            rw (handle_cancel, e)
              (rw (delete_job_pod, done) (push_status-StoredWith w' job stored _ h' p q₂))
        | inr (_, failed) ↦
            unfold handle_cancel in
            rw (handle_cancel, e) (rw (delete_job_pod, failed) (stored, h', p))
      ]
      | inr (e, eq) ↦
          unfold handle_cancel in
          rw (handle_cancel, eq) (push_status-StoredWith w job stored _ h p (q₁ e))
    ]
      where
        dropped : K.Server × Option Error
        dropped = K.delete_pod w.server (pod_to_delete job)

        w' : World K
        w' = record w { server = dropped.0 }

        h' : K.get_job dropped.0 (job_key job) ≡ ok stored
        h' = L.delete_pod_jobs w.server (pod_to_delete job) (job_key job) ∙ h

module _ (K : Kube) (r : Reconciler) (L : IsLawful K) (now : Time) (w : World K) where
  -- The handlers move a job along the diagram.
  handle_state-Moves :
      (job : LmEvalJob)
      → K.get_job w.server (job_key job) ≡ ok job
      → is_zero_time job.meta.deletion_timestamp ≡ true
      → StoredWith K (Moves now job.status) (handle_state K r now w job).0 (job_key job)
  handle_state-Moves job h z =
      handle_state-cases K r (λ u. StoredWith K P u.0 (job_key job)) now w job
        (λ e.
          handle_new_cr-StoredWith K r L P w job job h stay now z (λ x. no_pod x (inr e))
            (λ pod. schedule pod (inr e)))
        (λ e.
          check_scheduled_pod-StoredWith K r L P w job job h stay (λ x. pod_lost x e)
            (λ t. terminated_status-Moves now job.status t e))
        (λ e. handle_complete-StoredWith K r L P w job job h stay now (wrap_up e))
        (λ e. handle_cancel-StoredWith K r L P w job job h stay (λ x. cancel_lost x e) (cancel e))
        (job, h, stay)
    where
      P : LmEvalJobStatus → Type 0
      P = Moves now job.status

  unscheduled-Moves :
      (job : LmEvalJob)
      → K.get_job w.server (job_key job) ≡ ok job
      → is_zero_time job.meta.deletion_timestamp ≡ true
      → job.status.last_schedule_time ≡ none
      → StoredWith K
          (Moves now job.status)
          (handle_state K r now w (treat_as_new job)).0
          (job_key job)
  unscheduled-Moves job h z e =
      unfold handle_state in
      rw (treat_as_new-unscheduled job e) (
        handle_new_cr-StoredWith K r L (Moves now job.status) w
          (set_status job (record (job.status) { state = new_job_state })) job h stay now z
          (λ x. no_pod x (inl e)) (λ pod. schedule pod (inl e)))

  reconcile-Moves_at_key :
      (job : LmEvalJob)
      → is_zero_time job.meta.deletion_timestamp ≡ true
      → K.get_job w.server (job_key job) ≡ ok job
      → StoredWith K (Moves now job.status) (reconcile K r now w (job_key job)).0 (job_key job)
  reconcile-Moves_at_key job z h =
      rw (reconcile-live K r now w (job_key job) job h z)
        (elim (Option-cases job.status.last_schedule_time) [
          | inl e ↦ unscheduled-Moves job h z e
          | inr (_, e) ↦ rw (treat_as_new-scheduled job e) (handle_state-Moves job h z)
        ])

  -- If a job is stored under the key and is not being deleted, one reconciliation leaves a job
  -- there, and its status has stayed or has taken one step of the diagram. This holds whether the
  -- API calls succeed or fail.
  pub reconcile-Moves :
      (k : NamespacedName) (job : LmEvalJob)
      → K.get_job w.server k ≡ ok job
      → is_zero_time job.meta.deletion_timestamp ≡ true
      → StoredWith K (Moves now job.status) (reconcile K r now w k).0 k
  reconcile-Moves k job h z =
      subst
        (λ j.
          K.get_job w.server j ≡ ok job
          → StoredWith K (Moves now job.status) (reconcile K r now w j).0 j)
        (L.get_job_key w.server k job h) (reconcile-Moves_at_key job z) h
