-- ===== src/Lifecycle/System.antt =====
-- The parts of the system that act on a job, in any order: Reconcile and UpdateStatus of
-- backend/controller, the drivers, the cluster and the user.
use fms_lm_eval_service.Prelude.{◌≡◌, Option, none, some, ◌⊎◌}
use fms_lm_eval_service.Api.Core.{Time, Result, ok, err, NamespacedName}
use fms_lm_eval_service.Api.Job.{LmEvalJob, LmEvalJobStatus, cancelled_job_state}
use fms_lm_eval_service.Api.Backend.{JobStatus}
use fms_lm_eval_service.Cluster.Interface.{Kube, World}
use fms_lm_eval_service.Pod.Options.{Reconciler}
use fms_lm_eval_service.Reconcile.Handlers.{reconcile}
use fms_lm_eval_service.Grpc.Status.{serve_update_status}
use fms_lm_eval_service.Lifecycle.Change.{FromDriver}

abbrev pub status_of : Result LmEvalJob → Option LmEvalJobStatus
status_of (ok job) = some job.status
status_of (err e) = none

-- What the cluster and the user may do to the job under a key: nothing (pods and other jobs change
-- at will), a change that leaves its status alone, its removal, or its cancellation. A job that is
-- made anew under the key is another job.
abbrev pub Outside : Option LmEvalJobStatus → Option LmEvalJobStatus → Type 0
Outside none o = o ≡ none
Outside (some s) none = Unit
Outside (some s) (some s') = (s' ≡ s) ⊎ (s' ≡ record s { state = cancelled_job_state })

module _ (K : Kube) (r : Reconciler) (k : NamespacedName) where
  -- The status of the job under the key, if there is one.
  abbrev pub seen : World K → Option LmEvalJobStatus
  seen w = status_of (K.get_job w.server k)

  -- One step of the system: a reconciliation of any key, at any time; a report of a driver of any
  -- job; or something from outside.
  pub data Step (w w' : World K) : Type 0 where
    reconciled :
        (now : Time) (other : NamespacedName) → w' ≡ (reconcile K r now w other).0 → Step w w'
    reported :
        (report : JobStatus)
        → FromDriver report
        → w' ≡ (serve_update_status K w report).0
        → Step w w'
    outside : Outside (seen w) (seen w') → Step w w'

  pub data Reach (w : World K) : World K → Type 0 where
    here : Reach w w
    next : {u v : World K} → Reach w u → Step u v → Reach w v
