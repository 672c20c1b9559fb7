-- ===== src/Reconcile/Handlers.antt =====
-- backend/controller/lmevaljob_controller.go: Reconcile and its handlers. `now` is what `v1.Now()`
-- returns during the call. What is only written to the log is left out.
use fms_lm_eval_service.Prelude.{String, ◌<>◌, ◌==◌, not, ◌||◌, none, some, if◌then◌else◌}
use fms_lm_eval_service.Api.Core.{Time, is_zero_time, ok, err, NamespacedName}
use fms_lm_eval_service.Api.Job.{
  JobState, LmEvalJob, LmEvalJobStatus, new_job_state, scheduled_job_state, running_job_state,
  complete_job_state, cancelled_job_state, cancelled_reason, finalizer_name,
}
use fms_lm_eval_service.Cluster.Interface.{Kube, World, emit, push_status, push_job}
use fms_lm_eval_service.Pod.Options.{Reconciler}
use fms_lm_eval_service.Pod.Build.{create_pod}
use fms_lm_eval_service.Reconcile.Base.{
  Outcome, finish, check_later, event, set_status, treat_as_new, set_finalizers, failed_status,
  scheduled_status, cancelled_status, main_terminated, terminated_status, get_pod, delete_job_pod,
}

-- The message of an event about the job.
abbrev about : String → String → LmEvalJob → String → String
about before between job after = before <> job.meta.name <> between <> job.meta.namespace <> after

module _ (K : Kube) (r : Reconciler) where
  unfoldable pub handle_deletion : World K → LmEvalJob → World K × Outcome
  unfolding delete_job_pod
  handle_deletion w job =
      let w' =
        if not (job.status.state == complete_job_state)
          || not (job.status.reason == cancelled_reason)
        then (delete_job_pod K w job).0
        else w in
      let names = K.remove_finalizer job.meta.finalizers finalizer_name in
      let (w'', e) = push_job K w' (set_finalizers job names) in
      let detach =
        event "Normal" "DetachFinalizer"
          (about "removed finalizer from LMEvalJob " " in namespace " job "") in
      if K.contains_finalizer job.meta.finalizers finalizer_name
      then elim e [ some e' ↦ (w'', finish (some e')) | none ↦ (emit K w'' detach, finish none) ]
      else (w, finish none)

  -- The first branch of `handleNewCR`.
  unfoldable pub attach_finalizer : World K → LmEvalJob → World K × Outcome
  attach_finalizer w job =
      let names = K.add_finalizer job.meta.finalizers finalizer_name in
      let (w', e) = push_job K w (set_finalizers job names) in
      let attach =
        event "Normal" "AttachFinalizer"
          (about "added the finalizer to the LMEvalJob " " in namespace " job "") in
      elim e [ some e' ↦ (w', finish (some e')) | none ↦ (emit K w' attach, finish none) ]

  -- The rest of `handleNewCR`. Where the pod cannot be created, the error of the status update is
  -- only logged.
  unfoldable pub schedule_pod : Time → World K → LmEvalJob → World K × Outcome
  unfolding create_pod
  schedule_pod now w job =
      let (s, created) = K.create_pod w.server (create_pod r job) in
      let w' : World K = record w { server = s } in
      elim created [
        | err e ↦
            let failed = push_status K w' (set_status job (failed_status job.status e)) in
            (failed.0, finish (some e))
        | ok pod ↦
            let done = push_status K w' (set_status job (scheduled_status now job.status pod)) in
            let creation =
              event "Normal" "PodCreation"
                (about "the LMEvalJob " " in namespace " job " created a pod") in
            elim done.1 [
              | some e ↦ (done.0, finish (some e))
              | none ↦ (emit K done.0 creation, check_later r none)
            ]
      ]

  unfoldable pub handle_new_cr : Time → World K → LmEvalJob → World K × Outcome
  unfolding attach_finalizer schedule_pod
  handle_new_cr now w job =
      if not (K.contains_finalizer job.meta.finalizers finalizer_name)
      then attach_finalizer w job
      else schedule_pod now w job

  unfoldable pub check_scheduled_pod : World K → LmEvalJob → World K × Outcome
  unfolding get_pod main_terminated terminated_status
  check_scheduled_pod w job = elim (get_pod K w job) [
    | err e ↦
        let (w', e') = push_status K w (set_status job (failed_status job.status e)) in
        let missing =
          event "Warning" "PodMising"
            (about "the pod for the LMEvalJob " " in namespace " job " is gone") in
        elim e' [ some e'' ↦ (w', finish (some e'')) | none ↦ (emit K w' missing, finish (some e)) ]
    | ok pod ↦ elim (main_terminated pod) [
      | none ↦ (w, check_later r none)
      | some t ↦
          let (w', e') = push_status K w (set_status job (terminated_status job.status t)) in
          let completed =
            event "Normal" "PodCompleted"
              (about "The pod for the LMEvalJob " " in namespace " job " has completed") in
          (emit K w' completed, finish e')
    ]
  ]

  unfoldable pub handle_complete : Time → World K → LmEvalJob → World K × Outcome
  handle_complete now w job =
      let completed =
        event "Normal" "JobCompleted"
          (about "The LMEvalJob " " in namespace " job " has completed") in
      elim job.status.complete_time [
        | some _ ↦ (w, finish none)
        | none ↦
            let status = record (job.status) { complete_time = some now } in
            ((push_status K (emit K w completed) (set_status job status)).0, finish none)
      ]

  -- The end of `handleCancel`, once the status is chosen.
  unfoldable pub finish_cancel : World K → LmEvalJob → LmEvalJobStatus → World K × Outcome
  finish_cancel w job status =
      let (w', e) = push_status K w (set_status job status) in
      let cancelled = event "Normal" "Cancelled" (
        about "The LMEvalJob " " in namespace " job
          " has cancelled and changed its state to Complete") in
      (emit K w' cancelled, finish e)

  unfoldable pub handle_cancel : World K → LmEvalJob → World K × Outcome
  unfolding get_pod delete_job_pod finish_cancel
  handle_cancel w job = elim (get_pod K w job) [
    | err e ↦ finish_cancel w job (failed_status job.status e)
    | ok pod ↦
        let (w', deleted) = delete_job_pod K w job in
        elim deleted [
          | some e ↦ (w', check_later r (some e))
          | none ↦ finish_cancel w' job (cancelled_status job.status)
        ]
  ]

  -- The switch over the job's state.
  unfoldable pub dispatch : JobState → Time → World K → LmEvalJob → World K × Outcome
  unfolding handle_new_cr check_scheduled_pod handle_complete handle_cancel
  dispatch state now w job =
      if state == new_job_state
      then handle_new_cr now w job
      else if state == scheduled_job_state
      then check_scheduled_pod w job
      else if state == running_job_state
      then check_scheduled_pod w job
      else if state == complete_job_state
      then handle_complete now w job
      else if state == cancelled_job_state
      then handle_cancel w job
      else (w, finish none)

  unfoldable pub handle_state : Time → World K → LmEvalJob → World K × Outcome
  unfolding dispatch
  handle_state now w job = dispatch job.status.state now w job

  unfoldable pub reconcile : Time → World K → NamespacedName → World K × Outcome
  unfolding handle_deletion handle_state treat_as_new
  reconcile now w key = elim (K.get_job w.server key) [
    | err e ↦ (w, finish (K.ignore_not_found e))
    | ok job ↦
        if not (is_zero_time job.meta.deletion_timestamp)
        then handle_deletion w job
        else handle_state now w (treat_as_new job)
  ]
