-- ===== src/Reconcile/Diagram.antt =====
-- The state diagram of a job under Reconcile (backend/controller/lmevaljob_controller.go).
use fms_lm_eval_service.Prelude.Int.{pos, is_zero}
use fms_lm_eval_service.Prelude.{String, ◌≢◌, ◌≡◌, ◌⊎◌, inl, inr, none, some, Bool-cases}
use fms_lm_eval_service.Api.Core.{Time, Error, ContainerStateTerminated, Pod}
use fms_lm_eval_service.Api.Job.{
  LmEvalJobStatus, new_job_state, scheduled_job_state, complete_job_state, cancelled_job_state,
  succeed_reason, failed_reason, cancelled_reason,
}
use fms_lm_eval_service.Reconcile.Base.{terminated_status}
use fms_lm_eval_service.Reconcile.Pods.{is_zero_iff}
use fms_lm_eval_service.Reconcile.Dispatch.{HasPod}

-- A job without a schedule time is new, whatever its state says.
abbrev pub IsUnscheduled : LmEvalJobStatus → Type 0
IsUnscheduled s = (s.last_schedule_time ≡ none) ⊎ (s.state ≡ new_job_state)

-- A job that failed, for the reason that the message gives.
abbrev failure : LmEvalJobStatus → String → LmEvalJobStatus
failure s text = record s { state = complete_job_state; reason = failed_reason; message = text }

-- How one reconciliation at `now` may change the status of a job.
pub data Moves (now : Time) (s : LmEvalJobStatus) : LmEvalJobStatus → Type 0 where
  stay : Moves now s s
  schedule :
      (pod : Pod)
      → IsUnscheduled s
      → Moves now s (record s {
        state = scheduled_job_state;
        pod_name = pod.meta.name;
        last_schedule_time = some now;
      })
  no_pod : (e : Error) → IsUnscheduled s → Moves now s (failure s e.message)
  pod_lost : (e : Error) → HasPod s → Moves now s (failure s e.message)
  pod_succeeded :
      (t : ContainerStateTerminated)
      → t.exit_code ≡ pos 0
      → HasPod s
      → Moves now s (record s { state = complete_job_state; reason = succeed_reason })
  pod_failed :
      (t : ContainerStateTerminated)
      → t.exit_code ≢ pos 0
      → HasPod s
      → Moves now s (failure s t.reason)
  wrap_up :
      s.state ≡ complete_job_state
      → s.complete_time ≡ none
      → Moves now s (record s { complete_time = some now })
  cancel :
      s.state ≡ cancelled_job_state
      → Moves now s (record s { state = complete_job_state; reason = cancelled_reason })
  cancel_lost : (e : Error) → s.state ≡ cancelled_job_state → Moves now s (failure s e.message)

pub terminated_status-Moves :
    (now : Time) (s : LmEvalJobStatus) (t : ContainerStateTerminated)
    → HasPod s
    → Moves now s (terminated_status s t)
terminated_status-Moves now s t p =
    unfold terminated_status in
    elim (Bool-cases (is_zero t.exit_code)) [
      | inl e ↦ rw (terminated_status, e) (pod_succeeded t ((is_zero_iff t.exit_code).0 e) p)
      | inr e ↦
          rw (terminated_status, e)
            (pod_failed t (λ zero. cc (e, (is_zero_iff t.exit_code).1 zero)) p)
    ]
