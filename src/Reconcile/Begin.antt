-- ===== src/Reconcile/Begin.antt =====
-- A new job under Reconcile: its finalizer and its pod (handleNewCR and getPod of
-- backend/controller/lmevaljob_controller.go).
use fms_lm_eval_service.Prelude.{true, false, ◌≡◌, refl, sym, ◌∙◌, ap, subst, none, some, inl, Any}
use fms_lm_eval_service.Api.Core.{Time, is_zero_time, ok, NamespacedName, Pod}
use fms_lm_eval_service.Api.Job.{
  LmEvalJob, LmEvalJobStatus, job_key, new_job_state, scheduled_job_state, finalizer_name,
}
use fms_lm_eval_service.Cluster.Interface.{Kube, IsLawful, World}
use fms_lm_eval_service.Cluster.Laws.{status_written, at_own_key}
use fms_lm_eval_service.Pod.Options.{Reconciler}
use fms_lm_eval_service.Pod.Build.{create_pod}
use fms_lm_eval_service.Reconcile.Base.{
  check_later, set_status, set_finalizers, scheduled_status, get_pod,
}
use fms_lm_eval_service.Reconcile.Handlers.{
  attach_finalizer, schedule_pod, handle_new_cr, reconcile,
}
use fms_lm_eval_service.Reconcile.Pods.{IsOwner, get_pod-owned}
use fms_lm_eval_service.Reconcile.Complete.{handle_new_cr-held, unscheduled_job}

-- The job as `handleNewCR` sees it.
abbrev pub as_new : LmEvalJob → LmEvalJob
as_new job = set_status job (record (job.status) { state = new_job_state })

module _ (K : Kube) where
  -- The job as it is written with the finalizer.
  abbrev pub attached : LmEvalJob → LmEvalJob
  attached job = set_finalizers (as_new job) (K.add_finalizer job.meta.finalizers finalizer_name)

module _ (K : Kube) (r : Reconciler) (L : IsLawful K) (now : Time) (w : World K) where
  attach_finalizer-server :
      (job : LmEvalJob)
      → (K.update w.server (attached K job)).1 ≡ none
      → (attach_finalizer K r w (as_new job)).0.server ≡ (K.update w.server (attached K job)).0
  attach_finalizer-server job done = unfold attach_finalizer in rw (attach_finalizer, done) refl

  -- The pod that was created is the one that `getPod` finds for the job, whatever
  -- its status is then.
  made_pod-found :
      (job : LmEvalJob) (status : LmEvalJobStatus) (made : Pod)
      → (K.create_pod w.server (create_pod r job)).1 ≡ ok made
      → (K.get_pod (K.create_pod w.server (create_pod r job)).0 (job_key job) ≡ ok made)
        × Any (IsOwner (set_status job status)) made.meta.owner_references
  unfolding create_pod
  made_pod-found job status made e =
      let (there, name, owners) = L.create_pod_done w.server (create_pod r job) made e in
      (
        there,
        subst (Any (IsOwner (set_status job status))) (sym owners)
            (inl (record { same_version = refl; same_kind = refl; same_name = refl })),
      )

  schedule_pod-made :
      (job : LmEvalJob) (made : Pod)
      → (K.create_pod w.server (create_pod r job)).1 ≡ ok made
      → (K.update_status
          (K.create_pod w.server (create_pod r job)).0
          (set_status job (scheduled_status now job.status made))).1
        ≡ none
      → ((schedule_pod K r now w job).0.server
          ≡ (K.update_status
              (K.create_pod w.server (create_pod r job)).0
              (set_status job (scheduled_status now job.status made))).0)
        × ((schedule_pod K r now w job).1 ≡ check_later r none)
  schedule_pod-made job made e done =
      unfold schedule_pod in rw (schedule_pod, e) (rw done (refl, refl))

-- A job that has no schedule time, holds the finalizer and is not being deleted, under the key.
module _ (K : Kube) (r : Reconciler) (L : IsLawful K) (now : Time) (w : World K)
    (k : NamespacedName) (job : LmEvalJob) (h : K.get_job w.server k ≡ ok job)
    (z : is_zero_time job.meta.deletion_timestamp ≡ true)
    (fresh : job.status.last_schedule_time ≡ none)
    (held : K.contains_finalizer job.meta.finalizers finalizer_name ≡ true) (made : Pod)
    (created : (K.create_pod w.server (create_pod r (as_new job))).1 ≡ ok made) where
  -- The job as it is stored with its pod.
  abbrev pub scheduled : LmEvalJob
  scheduled = set_status job (scheduled_status now job.status made)

  reconcile-schedules :
      (K.update_status (K.create_pod w.server (create_pod r (as_new job))).0 scheduled).1 ≡ none
      → (K.get_job (reconcile K r now w k).0.server k ≡ ok scheduled)
        × (get_pod K (reconcile K r now w k).0 scheduled ≡ ok made)
        × ((reconcile K r now w k).1 ≡ check_later r none)
  reconcile-schedules done =
      let to_pod =
        unscheduled_job K r now w k job h z fresh
        ∙ handle_new_cr-held K r now w (as_new job) held in
      let (server, outcome) = schedule_pod-made K r L now w (as_new job) made created done in
      let (there, own) = made_pod-found K r L now w (as_new job) scheduled.status made created in
      let s = (K.create_pod w.server (create_pod r (as_new job))).0 in
      (
        rw (to_pod, server)
            (status_written K L s k job
              (L.create_pod_jobs w.server (create_pod r (as_new job)) k ∙ h)
              (scheduled_status now job.status made) done),
        rw to_pod (
            get_pod-owned K (schedule_pod K r now w (as_new job)).0 scheduled
              (rw server (L.update_status_pods s scheduled (job_key job) ∙ there)) own),
        rw (to_pod, outcome),
      )

module _ (K : Kube) (r : Reconciler) (L : IsLawful K) (now later : Time) (w : World K)
    (k : NamespacedName) (job : LmEvalJob) (h : K.get_job w.server k ≡ ok job)
    (z : is_zero_time job.meta.deletion_timestamp ≡ true)
    (fresh : job.status.last_schedule_time ≡ none)
    (lacks : K.contains_finalizer job.meta.finalizers finalizer_name ≡ false)
    (done : (K.update w.server (attached K job)).1 ≡ none) where
  abbrev pub begun : World K
  begun = (reconcile K r now w k).0

  to_attached : reconcile K r now w k ≡ attach_finalizer K r w (as_new job)
  to_attached =
      unscheduled_job K r now w k job h z fresh ∙ unfold handle_new_cr in rw (handle_new_cr, lacks)

  begun-server : begun.server ≡ (K.update w.server (attached K job)).0
  begun-server = ap (λ u. u.0.server) to_attached ∙ attach_finalizer-server K r L now w job done

  -- What is stored behind the first reconciliation has the finalizer and the status of before.
  begun_job :
      (after : LmEvalJob)
      → K.get_job begun.server k ≡ ok after
      → (K.contains_finalizer after.meta.finalizers finalizer_name ≡ true)
        × (after.status.last_schedule_time ≡ none)
  begun_job after there =
      let at_key : K.get_job (K.update w.server (attached K job)).0 (job_key job) ≡ ok after =
        subst (λ j. K.get_job (K.update w.server (attached K job)).0 j ≡ ok after)
          (sym (L.get_job_key w.server k job h))
          (subst (λ s. K.get_job s k ≡ ok after) begun-server there) in
      let names = L.update_finalizers w.server (attached K job) after done at_key in
      let same =
        L.update_status_apart w.server (attached K job) job after (at_own_key K L w.server k job h)
          at_key in
      (
        rw names (L.contains-add job.meta.finalizers finalizer_name),
        ap (λ s. s.last_schedule_time) same ∙ fresh,
      )

  -- If a job without the finalizer has no schedule time and is not being deleted, neither before
  -- nor after its first reconciliation, and its update, the creation of its pod and its status
  -- update succeed, then two reconciliations are enough: the job is Scheduled, with the name of
  -- its pod and the time of the second one, its pod is found for it, and it is looked at again
  -- after the configured interval.
  pub reconcile-begins :
      (after : LmEvalJob)
      → K.get_job begun.server k ≡ ok after
      → is_zero_time after.meta.deletion_timestamp ≡ true
      → (made : Pod) → (K.create_pod begun.server (create_pod r (as_new after))).1 ≡ ok made
      → (K.update_status
          (K.create_pod begun.server (create_pod r (as_new after))).0
          (set_status after (scheduled_status later after.status made))).1
        ≡ none
      → let running = (reconcile K r later begun k).0 in
        let scheduled = set_status after (record (after.status) {
          state = scheduled_job_state;
          pod_name = made.meta.name;
          last_schedule_time = some later;
        }) in
        (K.get_job running.server k ≡ ok scheduled)
        × (get_pod K running scheduled ≡ ok made)
        × ((reconcile K r later begun k).1 ≡ check_later r none)
  reconcile-begins after there z' made created written =
      let (held, unscheduled) = begun_job after there in
      reconcile-schedules K r L later begun k after there z' unscheduled held made created written
