-- ===== src/Reconcile/Dispatch.antt =====
-- Case analysis on what Reconcile calls (backend/controller/lmevaljob_controller.go, lines 132-171).
use fms_lm_eval_service.Prelude.{
  ◌==◌, eq_iff, true, false, ◌≡◌, refl, ap, ◌∙◌, ◌⊎◌, inl, inr, none, some, Bool-cases,
}
use fms_lm_eval_service.Api.Core.{Time, is_zero_time, Error, ok, err, Result-cases, NamespacedName}
use fms_lm_eval_service.Api.Job.{
  JobState, LmEvalJob, LmEvalJobStatus, new_job_state, scheduled_job_state, running_job_state,
  complete_job_state, cancelled_job_state,
}
use fms_lm_eval_service.Cluster.Interface.{Kube, World}
use fms_lm_eval_service.Pod.Options.{Reconciler}
use fms_lm_eval_service.Reconcile.Base.{Outcome, finish, treat_as_new, treat_as_new-scheduled}
use fms_lm_eval_service.Reconcile.Handlers.{
  handle_deletion, handle_new_cr, check_scheduled_pod, handle_complete, handle_cancel, dispatch,
  handle_state, reconcile,
}

-- The states in which the job has a pod.
abbrev pub HasPod : LmEvalJobStatus → Type 0
HasPod s = (s.state ≡ scheduled_job_state) ⊎ (s.state ≡ running_job_state)

module _ (K : Kube) (r : Reconciler) (now : Time) (w : World K) (k : NamespacedName) where
  pub reconcile-live :
      (job : LmEvalJob)
      → K.get_job w.server k ≡ ok job
      → is_zero_time job.meta.deletion_timestamp ≡ true
      → reconcile K r now w k ≡ handle_state K r now w (treat_as_new job)
  reconcile-live job h z = unfold reconcile in rw (reconcile, h, z)

  pub reconcile-scheduled :
      (job : LmEvalJob)
      → K.get_job w.server k ≡ ok job
      → is_zero_time job.meta.deletion_timestamp ≡ true
      → {t : Time} → job.status.last_schedule_time ≡ some t
      → reconcile K r now w k ≡ handle_state K r now w job
  reconcile-scheduled job h z t = rw (reconcile-live job h z) (rw (treat_as_new-scheduled job t))

  pub reconcile-deleted :
      (job : LmEvalJob)
      → K.get_job w.server k ≡ ok job
      → is_zero_time job.meta.deletion_timestamp ≡ false
      → reconcile K r now w k ≡ handle_deletion K r w job
  reconcile-deleted job h z = unfold reconcile in rw (reconcile, h, z)

  pub reconcile-absent :
      (e : Error)
      → K.get_job w.server k ≡ err e
      → reconcile K r now w k ≡ (w, finish (K.ignore_not_found e))
  reconcile-absent e h = unfold reconcile in rw (reconcile, h)

-- The handler for each state that the switch knows.
module _ (K : Kube) (r : Reconciler) (now : Time) (w : World K) (job : LmEvalJob) where
  handle_state-at :
      {state : JobState}
      → job.status.state ≡ state
      → handle_state K r now w job ≡ dispatch K r state now w job
  handle_state-at e = unfold handle_state in ap (λ s. dispatch K r s now w job) e

  pub handle_state-new :
      job.status.state ≡ new_job_state → handle_state K r now w job ≡ handle_new_cr K r now w job
  handle_state-new e = handle_state-at e ∙ unfold dispatch in refl

  pub handle_state-pod :
      HasPod job.status → handle_state K r now w job ≡ check_scheduled_pod K r w job
  handle_state-pod (inl e) = handle_state-at e ∙ unfold dispatch in refl
  handle_state-pod (inr e) = handle_state-at e ∙ unfold dispatch in refl

  pub handle_state_complete :
      job.status.state ≡ complete_job_state
      → handle_state K r now w job ≡ handle_complete K r now w job
  handle_state_complete e = handle_state-at e ∙ unfold dispatch in refl

  pub handle_state-cancelled :
      job.status.state ≡ cancelled_job_state → handle_state K r now w job ≡ handle_cancel K r w job
  handle_state-cancelled e = handle_state-at e ∙ unfold dispatch in refl

module _ {ℓ} (K : Kube) (r : Reconciler) (Q : World K × Outcome → Type ℓ) (now : Time)
    (w : World K) where
  pub handle_state-cases :
      (job : LmEvalJob)
      → (job.status.state ≡ new_job_state → Q (handle_new_cr K r now w job))
      → (HasPod job.status → Q (check_scheduled_pod K r w job))
      → (job.status.state ≡ complete_job_state → Q (handle_complete K r now w job))
      → (job.status.state ≡ cancelled_job_state → Q (handle_cancel K r w job))
      → Q (w, finish none)
      → Q (handle_state K r now w job)
  handle_state-cases job new pod complete cancelled other =
      elim (Bool-cases (job.status.state == new_job_state)) [
        | inl e ↦ unfold handle_state in rw (handle_state, dispatch, e) (new ((eq_iff _ _).0 e))
        | inr n₁ ↦ elim (Bool-cases (job.status.state == scheduled_job_state)) [
          | inl e ↦
              unfold handle_state in
              rw (handle_state, dispatch, n₁, e) (pod (inl ((eq_iff _ _).0 e)))
          | inr n₂ ↦ elim (Bool-cases (job.status.state == running_job_state)) [
            | inl e ↦
                unfold handle_state in
                rw (handle_state, dispatch, n₁, n₂, e) (pod (inr ((eq_iff _ _).0 e)))
            | inr n₃ ↦ elim (Bool-cases (job.status.state == complete_job_state)) [
              | inl e ↦
                  unfold handle_state in
                  rw (handle_state, dispatch, n₁, n₂, n₃, e) (complete ((eq_iff _ _).0 e))
              | inr n₄ ↦ elim (Bool-cases (job.status.state == cancelled_job_state)) [
                | inl e ↦
                    unfold handle_state in
                    rw (handle_state, dispatch, n₁, n₂, n₃, n₄, e) (cancelled ((eq_iff _ _).0 e))
                | inr n₅ ↦
                    unfold handle_state in rw (handle_state, dispatch, n₁, n₂, n₃, n₄, n₅) other
              ]
            ]
          ]
        ]
      ]

  pub reconcile-cases :
      (k : NamespacedName)
      → ((e : Error) → K.get_job w.server k ≡ err e → Q (w, finish (K.ignore_not_found e)))
      → ((job : LmEvalJob)
          → K.get_job w.server k ≡ ok job
          → is_zero_time job.meta.deletion_timestamp ≡ false
          → Q (handle_deletion K r w job))
      → ((job : LmEvalJob)
          → K.get_job w.server k ≡ ok job
          → is_zero_time job.meta.deletion_timestamp ≡ true
          → Q (handle_state K r now w (treat_as_new job)))
      → Q (reconcile K r now w k)
  reconcile-cases k absent deleted live = elim (Result-cases (K.get_job w.server k)) [
    | inr (e, eq) ↦ rw (reconcile-absent K r now w k e eq) (absent e eq)
    | inl (job, eq) ↦ elim (Bool-cases (is_zero_time job.meta.deletion_timestamp)) [
      | inl z ↦ rw (reconcile-live K r now w k job eq z) (live job eq z)
      | inr nz ↦ rw (reconcile-deleted K r now w k job eq nz) (deleted job eq nz)
    ]
  ]
