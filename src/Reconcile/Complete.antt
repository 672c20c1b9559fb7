-- ===== src/Reconcile/Complete.antt =====
-- Complete jobs under Reconcile (backend/controller/lmevaljob_controller.go): those that had a pod
-- and those whose pod could not be created.
use fms_lm_eval_service.Prelude.{true, ◌≡◌, refl, sym, ◌∙◌, subst, none, some}
use fms_lm_eval_service.Api.Core.{Time, is_zero_time, Error, ok, err, NamespacedName}
use fms_lm_eval_service.Api.Job.{
  LmEvalJob, job_key, new_job_state, complete_job_state, finalizer_name, failed_reason,
}
use fms_lm_eval_service.Cluster.Interface.{Kube, IsLawful, World}
use fms_lm_eval_service.Pod.Options.{Reconciler}
use fms_lm_eval_service.Pod.Build.{create_pod}
use fms_lm_eval_service.Reconcile.Base.{finish, set_status, failed_status, treat_as_new-unscheduled}
use fms_lm_eval_service.Reconcile.Handlers.{schedule_pod, handle_new_cr, handle_complete, reconcile}
use fms_lm_eval_service.Reconcile.Dispatch.{
  reconcile-live, reconcile-scheduled, handle_state-new, handle_state_complete,
}

module _ (K : Kube) (r : Reconciler) (now : Time) (w : World K) where
  pub handle_complete-ended :
      (job : LmEvalJob) {c : Time}
      → job.status.complete_time ≡ some c
      → handle_complete K r now w job ≡ (w, finish none)
  handle_complete-ended job c = unfold handle_complete in rw (handle_complete, c)

  pub handle_complete-noted :
      (job : LmEvalJob)
      → job.status.complete_time ≡ none
      → (handle_complete K r now w job).0.server
        ≡ (K.update_status w.server
            (set_status job (record (job.status) { complete_time = some now }))).0
  handle_complete-noted job open_end = unfold handle_complete in rw (handle_complete, open_end)

  -- Where the API refuses the pod, the stored status says so, and nothing else of the job changes.
  schedule_pod-refused :
      IsLawful K
      → (job stored : LmEvalJob) {e : Error} → K.get_job w.server (job_key job) ≡ ok stored
      → (K.create_pod w.server (create_pod r job)).1 ≡ err e
      → (K.update_status
          (K.create_pod w.server (create_pod r job)).0
          (set_status job (failed_status job.status e))).1
        ≡ none
      → (K.get_job (schedule_pod K r now w job).0.server (job_key job)
          ≡ ok (record stored { status = failed_status job.status e }))
        × ((schedule_pod K r now w job).1 ≡ finish (some e))
  schedule_pod-refused L job stored h refused done =
      unfold schedule_pod in
      rw (schedule_pod, refused)
        (
          L.update_status_done _ _ done ∙ rw (L.create_pod_jobs w.server (create_pod r job)) (rw h),
          refl,
        )

  pub handle_new_cr-held :
      (job : LmEvalJob)
      → K.contains_finalizer job.meta.finalizers finalizer_name ≡ true
      → handle_new_cr K r now w job ≡ schedule_pod K r now w job
  handle_new_cr-held job held = unfold handle_new_cr in rw (handle_new_cr, held)

  pub unscheduled_job :
      (k : NamespacedName) (job : LmEvalJob)
      → K.get_job w.server k ≡ ok job
      → is_zero_time job.meta.deletion_timestamp ≡ true
      → job.status.last_schedule_time ≡ none
      → reconcile K r now w k
        ≡ handle_new_cr K r now w (set_status job (record (job.status) { state = new_job_state }))
  unscheduled_job k job h z e =
      reconcile-live K r now w k job h z
      ∙ rw (treat_as_new-unscheduled job e) (handle_state-new K r now w _ refl)

module _ (K : Kube) (r : Reconciler) (now : Time) (w : World K) (k : NamespacedName)
    (job : LmEvalJob) (h : K.get_job w.server k ≡ ok job)
    (z : is_zero_time job.meta.deletion_timestamp ≡ true) where
  -- A job that is complete, with its schedule time and its completion time set, is left alone: the
  -- reconciliation calls no write, records no event, and asks for no retry.
  pub reconcile-wrapped_up :
      {t c : Time}
      → job.status.state ≡ complete_job_state
      → job.status.last_schedule_time ≡ some t
      → job.status.complete_time ≡ some c
      → reconcile K r now w k ≡ (w, finish none)
  reconcile-wrapped_up e t c =
      reconcile-scheduled K r now w k job h z t
      ∙ handle_state_complete K r now w job e
      ∙ handle_complete-ended K r now w job c

  -- The job as `handleNewCR` sees it.
  abbrev renewed : LmEvalJob
  renewed = set_status job (record (job.status) { state = new_job_state })

  -- The job as it is stored after the API refused its pod with `e`.
  abbrev refused : Error → LmEvalJob
  refused e = record job { status = failed_status job.status e }

  -- If the job has no schedule time and holds the finalizer, the API refuses its pod with `e`, and
  -- the status update succeeds, then: the stored job becomes Complete and Failed with the message
  -- of `e`, `e` is returned, and every later reconciliation of that server tries again to create
  -- the pod, as for a new job, and does not wrap the job up.
  pub reconcile-refused_pod :
      IsLawful K
      → {e : Error} → job.status.last_schedule_time ≡ none
      → K.contains_finalizer job.meta.finalizers finalizer_name ≡ true
      → (K.create_pod w.server (create_pod r renewed)).1 ≡ err e
      → (K.update_status (K.create_pod w.server (create_pod r renewed)).0 (refused e)).1 ≡ none
      → (K.get_job (reconcile K r now w k).0.server k ≡ ok (refused e))
        × ((reconcile K r now w k).1 ≡ finish (some e))
        × ((later : Time)
            → let w' = (reconcile K r now w k).0 in
              reconcile K r later w' k
              ≡ schedule_pod K r later w' (
                  set_status (refused e) (record (job.status) {
                    state = new_job_state;
                    reason = failed_reason;
                    message = e.message;
                  })))
  reconcile-refused_pod L {e} fresh held denied done =
      (stored, rw first ends.1, λ later. again later)
    where
      first : reconcile K r now w k ≡ schedule_pod K r now w renewed
      first = unscheduled_job K r now w k job h z fresh ∙ handle_new_cr-held K r now w renewed held

      key : job_key job ≡ k
      key = L.get_job_key w.server k job h

      at_key : K.get_job w.server (job_key job) ≡ ok job
      at_key = subst (λ j. K.get_job w.server j ≡ ok job) (sym key) h

      ends :
          (K.get_job (schedule_pod K r now w renewed).0.server (job_key job) ≡ ok (refused e))
          × ((schedule_pod K r now w renewed).1 ≡ finish (some e))
      ends = schedule_pod-refused K r now w L renewed job at_key denied done

      stored : K.get_job (reconcile K r now w k).0.server k ≡ ok (refused e)
      stored = rw first (
          subst (λ j. K.get_job (schedule_pod K r now w renewed).0.server j ≡ ok (refused e)) key
            ends.0)

      again :
          (later : Time)
          → let w' = (reconcile K r now w k).0 in
            reconcile K r later w' k
            ≡ schedule_pod K r later w' (
                set_status (refused e) (record (job.status) {
                  state = new_job_state;
                  reason = failed_reason;
                  message = e.message;
                }))
      again later =
          let w' = (reconcile K r now w k).0 in
          unscheduled_job K r later w' k (refused e) stored z fresh
          ∙ handle_new_cr-held K r later w' _ held
