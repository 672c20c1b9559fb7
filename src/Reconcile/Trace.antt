-- ===== src/Reconcile/Trace.antt =====
-- The writes of one reconciliation, in their order (Reconcile and its handlers of
-- backend/controller/lmevaljob_controller.go).
use mathlib.Core.List.{append-nil, append_assoc}
use fms_lm_eval_service.Prelude.{
  true, false, ◌≡◌, refl, sym, ◌∙◌, inl, inr, Option, none, some, List, [], ◌∷◌, ◌++◌, Bool-cases,
  Option-cases, ◌==◌, ◌||◌, not,
}
use fms_lm_eval_service.Api.Core.{
  Time, is_zero_time, Error, Result, ok, Result-cases, NamespacedName, Pod, err,
}
use fms_lm_eval_service.Api.Job.{
  LmEvalJob, LmEvalJobStatus, new_job_state, complete_job_state, cancelled_reason, finalizer_name,
}
use fms_lm_eval_service.Cluster.Interface.{Kube, World, push_status}
use fms_lm_eval_service.Pod.Options.{Reconciler}
use fms_lm_eval_service.Pod.Build.{create_pod}
use fms_lm_eval_service.Reconcile.Base.{
  set_status, treat_as_new, treat_as_new-unscheduled, treat_as_new-scheduled, set_finalizers,
  pod_to_delete, failed_status, scheduled_status, main_terminated, get_pod, delete_job_pod,
}
use fms_lm_eval_service.Reconcile.Dispatch.{
  handle_state-cases, handle_state-new, reconcile-live, reconcile-deleted,
}
use fms_lm_eval_service.Reconcile.Complete.{handle_complete-ended, handle_complete-noted}
use fms_lm_eval_service.Reconcile.Release.{cleared, handle_deletion-free, handle_deletion-server}
use fms_lm_eval_service.Reconcile.Diagram.{IsUnscheduled}
use fms_lm_eval_service.Reconcile.Handlers.{
  attach_finalizer, schedule_pod, handle_new_cr, check_scheduled_pod, handle_complete,
  handle_cancel, handle_state, handle_deletion, reconcile,
}
use fms_lm_eval_service.Reconcile.Calls.{
  Call, status_updated, created, deleted, Logs, Plan, IsBegun, idle, attach, create, note, drop,
  drop_note, release, drop_release,
}

module _ (K : Kube) (r : Reconciler) (log : K.Server → List Call) (X : Logs K log) (now : Time)
    (w : World K) (job : LmEvalJob) where
  -- The writes behind those that the log of `w` has.
  abbrev pub Planned : World K → Type 0
  Planned u =
      (calls : List Call) × (log u.server ≡ log w.server ++ calls) × Plan K r now w.server job calls

  nothing : Planned w
  nothing = ([], sym (append-nil (log w.server)), idle)

  note-Planned : (s : LmEvalJobStatus) → Planned (push_status K w (set_status job s)).0
  note-Planned s = (_, X.of_update_status w.server (set_status job s), note s)

  schedule_pod-Planned :
      (status : LmEvalJobStatus)
      → IsBegun job status
      → K.contains_finalizer job.meta.finalizers finalizer_name ≡ true
      → IsUnscheduled job.status
      → Planned (schedule_pod K r now w (set_status job status)).0
  schedule_pod-Planned status begun held fresh =
      unfold schedule_pod in
      elim (Result-cases made.1) [
        | inr (e, h) ↦
            rw (schedule_pod, h) (_, then_noted, create status (err e) begun held fresh h)
        | inl (pod, h) ↦
            elim (Option-cases
              (K.update_status made.0 (set_status job (scheduled_status now status pod))).1) [
                | inl done ↦
                    rw (schedule_pod, h)
                      (rw done (_, then_noted, create status (ok pod) begun held fresh h))
                | inr (e, failed) ↦
                    rw (schedule_pod, h)
                      (rw failed (_, then_noted, create status (ok pod) begun held fresh h))
              ]
      ]
    where
      made : K.Server × Result Pod
      made = K.create_pod w.server (create_pod r (set_status job status))

      then_noted :
          {j : LmEvalJob}
          → log (K.update_status made.0 j).0
            ≡ log w.server
              ++ (created (create_pod r (set_status job status)) ∷ status_updated j ∷ [])
      then_noted {j} =
          X.of_update_status made.0 j
          ∙ rw (X.of_create_pod w.server (create_pod r (set_status job status)), append_assoc)

  attach_finalizer-Planned :
      (status : LmEvalJobStatus)
      → IsBegun job status
      → K.contains_finalizer job.meta.finalizers finalizer_name ≡ false
      → Planned (attach_finalizer K r w (set_status job status)).0
  attach_finalizer-Planned status begun lacks =
      unfold attach_finalizer in
      elim (Option-cases (K.update w.server attached).1) [
        | inl done ↦
            rw (attach_finalizer, done)
              (_, X.of_update w.server attached, attach status begun lacks)
        | inr (e, failed) ↦
            rw (attach_finalizer, failed)
              (_, X.of_update w.server attached, attach status begun lacks)
      ]
    where
      attached : LmEvalJob
      attached =
          set_finalizers (set_status job status)
            (K.add_finalizer job.meta.finalizers finalizer_name)

  handle_new_cr-Planned :
      (status : LmEvalJobStatus)
      → IsBegun job status
      → IsUnscheduled job.status
      → Planned (handle_new_cr K r now w (set_status job status)).0
  handle_new_cr-Planned status begun fresh =
      unfold handle_new_cr in
      elim (Bool-cases (K.contains_finalizer job.meta.finalizers finalizer_name)) [
        | inr lacks ↦ rw (handle_new_cr, lacks) (attach_finalizer-Planned status begun lacks)
        | inl held ↦ rw (handle_new_cr, held) (schedule_pod-Planned status begun held fresh)
      ]

  check_scheduled_pod-Planned : Planned (check_scheduled_pod K r w job).0
  check_scheduled_pod-Planned =
      unfold check_scheduled_pod in
      elim (Result-cases (get_pod K w job)) [
        | inl (pod, e) ↦ elim (Option-cases (main_terminated pod)) [
          | inl wait ↦ rw (e, check_scheduled_pod) (rw wait nothing)
          | inr (t, ended) ↦ rw (e, check_scheduled_pod) (rw ended (note-Planned _))
        ]
        | inr (e, h) ↦
            elim (Option-cases (push_status K w (set_status job (failed_status job.status e))).1) [
              | inl done ↦ rw (h, check_scheduled_pod) (rw done (note-Planned _))
              | inr (_, failed) ↦ rw (h, check_scheduled_pod) (rw failed (note-Planned _))
            ]
      ]

  handle_complete-Planned : Planned (handle_complete K r now w job).0
  handle_complete-Planned = elim (Option-cases job.status.complete_time) [
    | inl open_end ↦
        rw (handle_complete-noted K r now w job open_end)
          (note-Planned (record (job.status) { complete_time = some now }))
    | inr (_, ended) ↦ rw (handle_complete-ended K r now w job ended) nothing
  ]

  dropped : K.Server × Option Error
  dropped = K.delete_pod w.server (pod_to_delete job)

  log-dropped : log dropped.0 ≡ log w.server ++ (deleted (pod_to_delete job) ∷ [])
  unfolding dropped
  log-dropped = X.of_delete_pod w.server (pod_to_delete job)

  then_dropped :
      (c : Call)
      → log dropped.0 ++ (c ∷ []) ≡ log w.server ++ (deleted (pod_to_delete job) ∷ c ∷ [])
  then_dropped c = rw (log-dropped, append_assoc)

  handle_cancel-Planned : Planned (handle_cancel K r w job).0
  unfolding dropped
  handle_cancel-Planned =
      unfold handle_cancel in
      elim (Result-cases (get_pod K w job)) [
        | inr (e, h) ↦ rw (handle_cancel, h) (note-Planned _)
        | inl (pod, h) ↦ elim (Option-cases dropped.1) [
          | inr (e, failed) ↦
              rw (handle_cancel, h) (rw (delete_job_pod, failed) (_, log-dropped, drop))
          | inl done ↦
              rw (handle_cancel, h)
                (rw (delete_job_pod, done)
                  (_, X.of_update_status dropped.0 _ ∙ then_dropped _, drop_note _))
        ]
      ]

  released : LmEvalJob
  released = set_finalizers job (K.remove_finalizer job.meta.finalizers finalizer_name)

  handle_deletion-Planned : Planned (handle_deletion K r w job).0
  unfolding dropped released delete_job_pod
  handle_deletion-Planned =
      elim (Bool-cases (K.contains_finalizer job.meta.finalizers finalizer_name)) [
        | inr free ↦ rw (handle_deletion-free K r w job free) nothing
        | inl holds ↦
            rw (handle_deletion-server K r w job holds)
              (elim (Bool-cases (
                not (job.status.state == complete_job_state)
                || not (job.status.reason == cancelled_reason))) [
                  | inl busy ↦
                      rw (cleared, busy)
                        (_, X.of_update dropped.0 released ∙ then_dropped _, drop_release holds)
                  | inr spared ↦
                      rw (cleared, spared) (_, X.of_update w.server released, release holds)
                ])
      ]

module _ (K : Kube) (r : Reconciler) (log : K.Server → List Call) (X : Logs K log) (now : Time)
    (w : World K) where
  handle_state-Planned :
      (job : LmEvalJob) → Planned K r log X now w job (handle_state K r now w job).0
  handle_state-Planned job =
      handle_state-cases K r (λ u. Planned K r log X now w job u.0) now w job
        (λ e. handle_new_cr-Planned K r log X now w job job.status (inl refl) (inr e))
        (λ _. check_scheduled_pod-Planned K r log X now w job)
        (λ _. handle_complete-Planned K r log X now w job)
        (λ _. handle_cancel-Planned K r log X now w job) (nothing K r log X now w job)

  unscheduled-Planned :
      (job : LmEvalJob)
      → job.status.last_schedule_time ≡ none
      → Planned K r log X now w job (handle_state K r now w (treat_as_new job)).0
  unscheduled-Planned job e = rw (treat_as_new-unscheduled job e) (
      rw
        (handle_state-new K r now w (set_status job (record (job.status) { state = new_job_state }))
          refl)
        (handle_new_cr-Planned K r log X now w job (record (job.status) { state = new_job_state })
          (inr (e, refl)) (inl e)))

  -- If a job is stored under the key, a reconciliation makes the writes of one of the plans, each of
  -- which has two at most; they go to the job and to its pod only. Of a job they change the status or
  -- the controller's finalizer and nothing else. A pod is created only for a job that has no schedule
  -- time or is New, that holds the finalizer, and the next write then notes it in the job's status: the name of the pod that the
  -- API has made, the state Scheduled and the time, or, if the API has made none, the state Complete,
  -- the reason Failed and the error's message.
  pub reconcile-Plan :
      (k : NamespacedName) (job : LmEvalJob)
      → K.get_job w.server k ≡ ok job
      → Planned K r log X now w job (reconcile K r now w k).0
  reconcile-Plan k job h = elim (Bool-cases (is_zero_time job.meta.deletion_timestamp)) [
    | inr d ↦
        rw (reconcile-deleted K r now w k job h d) (handle_deletion-Planned K r log X now w job)
    | inl z ↦
        rw (reconcile-live K r now w k job h z) (elim (Option-cases job.status.last_schedule_time) [
          | inl e ↦ unscheduled-Planned job e
          | inr (t, e) ↦ rw (treat_as_new-scheduled job e) (handle_state-Planned job)
        ])
  ]
