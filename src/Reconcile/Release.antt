-- ===== src/Reconcile/Release.antt =====
-- The end of a job that is being deleted (handleDeletion of
-- backend/controller/lmevaljob_controller.go).
use fms_lm_eval_service.Prelude.{
  arith, ◌==◌, ◌||◌, not, if◌then◌else◌, subst, true, false, ◌≡◌, refl, ◌∙◌, sym, ap, none, inl,
  inr, Bool-cases, Option-cases,
}
use fms_lm_eval_service.Api.Core.{Time, is_zero_time, ok, NamespacedName}
use fms_lm_eval_service.Api.Job.{LmEvalJob, finalizer_name, complete_job_state, cancelled_reason}
use fms_lm_eval_service.Cluster.Interface.{Kube, IsLawful, World}
use fms_lm_eval_service.Pod.Options.{Reconciler}
use fms_lm_eval_service.Reconcile.Base.{finish, set_finalizers, delete_job_pod}
use fms_lm_eval_service.Reconcile.Handlers.{handle_deletion, reconcile}

module _ (K : Kube) (r : Reconciler) (w : World K) (job : LmEvalJob) where
  -- The job as `handleDeletion` writes it.
  abbrev pub released : LmEvalJob
  released = set_finalizers job (K.remove_finalizer job.meta.finalizers finalizer_name)

  -- The cluster in which `handleDeletion` writes it.
  abbrev pub cleared : World K
  cleared =
      if not (job.status.state == complete_job_state) || not (job.status.reason == cancelled_reason)
      then (delete_job_pod K w job).0
      else w

  handle_deletion-released :
      K.contains_finalizer job.meta.finalizers finalizer_name ≡ true
      → (handle_deletion K r w job).1 ≡ finish none
      → ((handle_deletion K r w job).0.server ≡ (K.update cleared.server released).0)
        × ((K.update cleared.server released).1 ≡ none)
  handle_deletion-released holds =
      unfold handle_deletion in
      elim (Option-cases (K.update cleared.server released).1) [
        | inl n ↦ rw (handle_deletion, holds) (rw n (λ x. (refl, refl)))
        | inr (e, h) ↦ rw (handle_deletion, holds) (rw h (λ x. absurd cc))
      ]

  pub handle_deletion-server :
      K.contains_finalizer job.meta.finalizers finalizer_name ≡ true
      → (handle_deletion K r w job).0.server ≡ (K.update cleared.server released).0
  handle_deletion-server holds =
      unfold handle_deletion in
      elim (Option-cases (K.update cleared.server released).1) [
        | inl n ↦ rw (handle_deletion, holds) (rw n)
        | inr (e, h) ↦ rw (handle_deletion, holds) (rw h)
      ]

  pub cleared-jobs :
      IsLawful K → (k : NamespacedName) → K.get_job cleared.server k ≡ K.get_job w.server k
  cleared-jobs L k = unfold delete_job_pod in grind (arith, L.delete_pod_jobs)

  pub handle_deletion-free :
      K.contains_finalizer job.meta.finalizers finalizer_name ≡ false
      → handle_deletion K r w job ≡ (w, finish none)
  handle_deletion-free free = unfold handle_deletion in rw (handle_deletion, free)

module _ (K : Kube) (r : Reconciler) (L : IsLawful K) (now : Time) (w : World K)
    (k : NamespacedName) (job : LmEvalJob) (h : K.get_job w.server k ≡ ok job) where
  reconcile-deleting :
      is_zero_time job.meta.deletion_timestamp ≡ false
      → reconcile K r now w k ≡ handle_deletion K r w job
  reconcile-deleting z = unfold reconcile in rw (reconcile, h) (rw z)

  released-finalizers :
      (s : K.Server) (after : LmEvalJob)
      → (K.update s (released K r w job)).1 ≡ none
      → K.get_job (K.update s (released K r w job)).0 k ≡ ok after
      → K.contains_finalizer after.meta.finalizers finalizer_name ≡ false
  released-finalizers s after done got =
      let e = L.update_finalizers s (released K r w job) after done (
        subst (λ j. K.get_job (K.update s (released K r w job)).0 j ≡ ok after)
          (sym (L.get_job_key w.server k job h)) got) in
      ap (λ names. K.contains_finalizer names finalizer_name) e
      ∙ L.contains-remove job.meta.finalizers finalizer_name

  -- If a stored job is being deleted and a reconciliation of it returns no error, then the job under
  -- the key, if one is left, does not hold the controller's finalizer.
  pub reconcile-released :
      is_zero_time job.meta.deletion_timestamp ≡ false
      → (reconcile K r now w k).1 ≡ finish none
      → (after : LmEvalJob) → K.get_job (reconcile K r now w k).0.server k ≡ ok after
      → K.contains_finalizer after.meta.finalizers finalizer_name ≡ false
  reconcile-released z =
      rw (reconcile-deleting z)
        (elim (Bool-cases (K.contains_finalizer job.meta.finalizers finalizer_name)) [
          | inr free ↦ rw (handle_deletion-free K r w job free) (λ x after got.
              let e : job ≡ after = cc (h, got) in
              subst (λ j. K.contains_finalizer j.meta.finalizers finalizer_name ≡ false) e free)
          | inl holds ↦ λ x after got.
              let (server, done) = handle_deletion-released K r w job holds x in
              released-finalizers (cleared K r w job).server after done (rw server at got)
        ])
