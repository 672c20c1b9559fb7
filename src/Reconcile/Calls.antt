-- ===== src/Reconcile/Calls.antt =====
-- The writes that a reconciliation may make, in their order (Reconcile and its handlers of
-- backend/controller/lmevaljob_controller.go).
use fms_lm_eval_service.Prelude.{true, false, ◌≡◌, ◌⊎◌, none, some, List, [], ◌∷◌, ◌++◌}
use fms_lm_eval_service.Api.Core.{Time, Pod, Result, ok, err}
use fms_lm_eval_service.Api.Job.{
  LmEvalJob, LmEvalJobStatus, finalizer_name, new_job_state, scheduled_job_state,
  complete_job_state, failed_reason,
}
use fms_lm_eval_service.Cluster.Interface.{Kube}
use fms_lm_eval_service.Pod.Options.{Reconciler}
use fms_lm_eval_service.Pod.Build.{create_pod}
use fms_lm_eval_service.Reconcile.Base.{set_status, set_finalizers, pod_to_delete}
use fms_lm_eval_service.Reconcile.Diagram.{IsUnscheduled}

-- A call of the client that writes.
pub data Call : Type 0 where
  updated : LmEvalJob → Call
  status_updated : LmEvalJob → Call
  created : Pod → Call
  deleted : Pod → Call

-- `log` lists the writes that a server has been asked for, oldest first.
pub record Logs (K : Kube) (log : K.Server → List Call) : Type 0 where
  pub of_update :
      (s : K.Server) (job : LmEvalJob) → log (K.update s job).0 ≡ log s ++ (updated job ∷ [])
  pub of_update_status :
      (s : K.Server) (job : LmEvalJob)
      → log (K.update_status s job).0 ≡ log s ++ (status_updated job ∷ [])
  pub of_create_pod :
      (s : K.Server) (pod : Pod) → log (K.create_pod s pod).0 ≡ log s ++ (created pod ∷ [])
  pub of_delete_pod :
      (s : K.Server) (pod : Pod) → log (K.delete_pod s pod).0 ≡ log s ++ (deleted pod ∷ [])

-- What the controller starts a new job with: its status, or this with the state New.
abbrev pub IsBegun : LmEvalJob → LmEvalJobStatus → Type 0
IsBegun job s =
    (s ≡ job.status)
    ⊎ ((job.status.last_schedule_time ≡ none) × (s ≡ record (job.status) { state = new_job_state }))

-- The status that notes a pod, or why there is none.
abbrev pub noted : Time → LmEvalJobStatus → Result Pod → LmEvalJobStatus
noted now s (ok pod) = record s {
  state = scheduled_job_state;
  pod_name = pod.meta.name;
  last_schedule_time = some now;
}
noted now s (err e) = record s {
  state = complete_job_state;
  reason = failed_reason;
  message = e.message;
}

-- The writes that a reconciliation of `job` may make at a time, from a server's state.
pub data Plan (K : Kube) (r : Reconciler) (now : Time) (server : K.Server) (job : LmEvalJob)
    : List Call → Type 0 where
  idle : Plan K r now server job []
  attach :
      (s : LmEvalJobStatus)
      → IsBegun job s
      → K.contains_finalizer job.meta.finalizers finalizer_name ≡ false
      → Plan K r now server job (
          updated
            (set_finalizers (set_status job s) (K.add_finalizer job.meta.finalizers finalizer_name))
          ∷ [])
  create :
      (s : LmEvalJobStatus) (made : Result Pod)
      → IsBegun job s
      → K.contains_finalizer job.meta.finalizers finalizer_name ≡ true
      → IsUnscheduled job.status
      → (K.create_pod server (create_pod r (set_status job s))).1 ≡ made
      → Plan K r now server job (
          created (create_pod r (set_status job s))
          ∷ status_updated (set_status job (noted now s made))
          ∷ [])
  note : (s : LmEvalJobStatus) → Plan K r now server job (status_updated (set_status job s) ∷ [])
  drop : Plan K r now server job (deleted (pod_to_delete job) ∷ [])
  drop_note :
      (s : LmEvalJobStatus)
      → Plan K r now server job
          (deleted (pod_to_delete job) ∷ status_updated (set_status job s) ∷ [])
  release :
      K.contains_finalizer job.meta.finalizers finalizer_name ≡ true
      → Plan K r now server job (
          updated (set_finalizers job (K.remove_finalizer job.meta.finalizers finalizer_name)) ∷ [])
  drop_release :
      K.contains_finalizer job.meta.finalizers finalizer_name ≡ true
      → Plan K r now server job (
          deleted (pod_to_delete job)
          ∷ updated (set_finalizers job (K.remove_finalizer job.meta.finalizers finalizer_name))
          ∷ [])
