-- ===== src/Reconcile/Frame.antt =====
-- What Reconcile leaves alone: the other jobs and pods (backend/controller/lmevaljob_controller.go).
use fms_lm_eval_service.Prelude.{◌≡◌, refl, ◌∙◌, inl, inr, arith, Bool-cases}
use fms_lm_eval_service.Api.Core.{Time, is_zero_time, ok, NamespacedName}
use fms_lm_eval_service.Api.Job.{LmEvalJob, job_key}
use fms_lm_eval_service.Cluster.Interface.{Kube, IsLawful, World}
use fms_lm_eval_service.Pod.Options.{Reconciler}
use fms_lm_eval_service.Reconcile.Base.{treat_as_new}
use fms_lm_eval_service.Reconcile.Handlers.{
  handle_deletion, handle_new_cr, check_scheduled_pod, handle_complete, handle_cancel, reconcile,
}
use fms_lm_eval_service.Reconcile.Dispatch.{
  handle_state-cases, reconcile-cases, reconcile-live, reconcile-deleted,
}

module _ (K : Kube) (r : Reconciler) (L : IsLawful K) (w : World K) (job : LmEvalJob)
    (k : NamespacedName) (ne : ¬ (k ≡ job_key job)) where
  handle_complete-other :
      (now : Time) → K.get_job (handle_complete K r now w job).0.server k ≡ K.get_job w.server k
  unfolding handle_complete
  handle_complete-other now = grind (arith, L.update_status_other)

  check_scheduled_pod-other :
      K.get_job (check_scheduled_pod K r w job).0.server k ≡ K.get_job w.server k
  unfolding check_scheduled_pod
  check_scheduled_pod-other = grind (arith, L.update_status_other)

  handle_cancel-other : K.get_job (handle_cancel K r w job).0.server k ≡ K.get_job w.server k
  unfolding handle_cancel
  handle_cancel-other = grind (arith, L.update_status_other, L.delete_pod_jobs)

  handle_new_cr-other :
      (now : Time) → K.get_job (handle_new_cr K r now w job).0.server k ≡ K.get_job w.server k
  unfolding handle_new_cr
  handle_new_cr-other now = grind (arith, L.update_status_other, L.create_pod_jobs, L.update_other)

  handle_deletion-other : K.get_job (handle_deletion K r w job).0.server k ≡ K.get_job w.server k
  unfolding handle_deletion
  handle_deletion-other = grind (arith, L.update_other, L.delete_pod_jobs)

-- The key of the pod that the job's status names.
abbrev pub named_pod : LmEvalJob → NamespacedName
named_pod job = record { namespace = job.meta.namespace; name = job.status.pod_name }

module _ (K : Kube) (r : Reconciler) (L : IsLawful K) (w : World K) (job : LmEvalJob)
    (k : NamespacedName) (ne : ¬ (k ≡ job_key job)) (ne' : ¬ (k ≡ named_pod job)) where
  handle_complete-other_pod :
      (now : Time) → K.get_pod (handle_complete K r now w job).0.server k ≡ K.get_pod w.server k
  unfolding handle_complete
  handle_complete-other_pod now = grind (arith, L.update_status_pods)

  check_scheduled_pod-other_pod :
      K.get_pod (check_scheduled_pod K r w job).0.server k ≡ K.get_pod w.server k
  unfolding check_scheduled_pod
  check_scheduled_pod-other_pod = grind (arith, L.update_status_pods)

  handle_cancel-other_pod : K.get_pod (handle_cancel K r w job).0.server k ≡ K.get_pod w.server k
  unfolding handle_cancel
  handle_cancel-other_pod = grind (arith, L.update_status_pods, L.delete_pod_other)

  handle_new_cr-other_pod :
      (now : Time) → K.get_pod (handle_new_cr K r now w job).0.server k ≡ K.get_pod w.server k
  unfolding handle_new_cr
  handle_new_cr-other_pod now =
      grind (arith, L.update_status_pods, L.create_pod_other, L.update_pods)

  handle_deletion-other_pod :
      K.get_pod (handle_deletion K r w job).0.server k ≡ K.get_pod w.server k
  unfolding handle_deletion
  handle_deletion-other_pod = grind (arith, L.update_pods, L.delete_pod_other)

treat_as_new-keys :
    (job : LmEvalJob)
    → (job_key (treat_as_new job) ≡ job_key job) × (named_pod (treat_as_new job) ≡ named_pod job)
unfolding treat_as_new
treat_as_new-keys job = ground arith

module _ (K : Kube) (r : Reconciler) (L : IsLawful K) (now : Time) (w : World K)
    (k other : NamespacedName) where
  -- A reconciliation changes no job but the one under its key, whatever it does to that.
  pub reconcile-other_job :
      ¬ (other ≡ k) → K.get_job (reconcile K r now w k).0.server other ≡ K.get_job w.server other
  reconcile-other_job ne =
      reconcile-cases K r (λ u. K.get_job u.0.server other ≡ K.get_job w.server other) now w k
        (λ e h. refl) (λ job h z. handle_deletion-other K r L w job other (at_key job h))
        (λ job h z.
          let ne' : ¬ (other ≡ job_key (treat_as_new job)) =
            λ e. at_key job h (e ∙ (treat_as_new-keys job).0) in
          handle_state-cases K r (λ u. K.get_job u.0.server other ≡ K.get_job w.server other) now w
            _ (λ _. handle_new_cr-other K r L w _ other ne' now)
            (λ _. check_scheduled_pod-other K r L w _ other ne')
            (λ _. handle_complete-other K r L w _ other ne' now)
            (λ _. handle_cancel-other K r L w _ other ne') refl)
    where
      at_key : (job : LmEvalJob) → K.get_job w.server k ≡ ok job → ¬ (other ≡ job_key job)
      at_key job h e = ne (e ∙ L.get_job_key w.server k job h)

  -- A reconciliation changes no pod but the one under its own key and the one that the stored job's
  -- status names.
  pub reconcile-other_pod :
      (job : LmEvalJob)
      → K.get_job w.server k ≡ ok job
      → ¬ (other ≡ k)
      → ¬ (other ≡ named_pod job)
      → K.get_pod (reconcile K r now w k).0.server other ≡ K.get_pod w.server other
  reconcile-other_pod job h ne ne' = elim (Bool-cases (is_zero_time job.meta.deletion_timestamp)) [
    | inr d ↦
        rw (reconcile-deleted K r now w k job h d)
          (handle_deletion-other_pod K r L w job other at_key ne')
    | inl z ↦ rw (reconcile-live K r now w k job h z) (
        handle_state-cases K r (λ u. K.get_pod u.0.server other ≡ K.get_pod w.server other) now w
          (treat_as_new job) (λ _. handle_new_cr-other_pod K r L w _ other key₁ key₂ now)
          (λ _. check_scheduled_pod-other_pod K r L w _ other key₁ key₂)
          (λ _. handle_complete-other_pod K r L w _ other key₁ key₂ now)
          (λ _. handle_cancel-other_pod K r L w _ other key₁ key₂) refl)
  ]
    where
      at_key : ¬ (other ≡ job_key job)
      at_key e = ne (e ∙ L.get_job_key w.server k job h)

      key₁ : ¬ (other ≡ job_key (treat_as_new job))
      key₁ e = at_key (e ∙ (treat_as_new-keys job).0)

      key₂ : ¬ (other ≡ named_pod (treat_as_new job))
      key₂ e = ne' (e ∙ (treat_as_new-keys job).1)
