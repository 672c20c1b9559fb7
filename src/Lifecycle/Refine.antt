-- ===== src/Lifecycle/Refine.antt =====
-- The steps of the system (Reconcile and UpdateStatus of backend/controller, in any order) against
-- the changes of one status.
use fms_lm_eval_service.Prelude.{◌≡◌, refl, inl, inr, Option, none, some}
use fms_lm_eval_service.Api.Core.{ok, NamespacedName}
use fms_lm_eval_service.Api.Job.{LmEvalJob, LmEvalJobStatus, job_key}
use fms_lm_eval_service.Api.Backend.{JobStatus}
use fms_lm_eval_service.Cluster.Interface.{Kube, IsLawful, World, push_status}
use fms_lm_eval_service.Cluster.Laws.{at_own_key}
use fms_lm_eval_service.Pod.Options.{Reconciler}
use fms_lm_eval_service.Grpc.Status.{merge_report, report_key}
use fms_lm_eval_service.Grpc.Cases.{serve-cases}
use fms_lm_eval_service.Reconcile.Base.{set_status}
use fms_lm_eval_service.Reconcile.Handlers.{reconcile}
use fms_lm_eval_service.Reconcile.Moves.{push_status-StoredWith}
use fms_lm_eval_service.Lifecycle.Change.{
  FromDriver, Change, same, by_controller, by_driver, by_user, merge_report-Reported,
}
use fms_lm_eval_service.Lifecycle.Reconciled.{
  FollowsBy, FollowsBy-map, FollowsBy-refl, Reconciles, key-cases, reconcile-FollowsBy,
}
use fms_lm_eval_service.Lifecycle.System.{Outside, seen, Step, reconciled, reported, outside}

abbrev pub Follows : Option LmEvalJobStatus → Option LmEvalJobStatus → Type 0
Follows = FollowsBy Change

Outside-Follows : (o o' : Option LmEvalJobStatus) → Outside o o' → Follows o o'
Outside-Follows none o' e = e
Outside-Follows (some s) none _ = tt
Outside-Follows (some s) (some s') (inl e) = same e
Outside-Follows (some s) (some s') (inr e) = by_user e

Reconciles-Change : (s s' : LmEvalJobStatus) → Reconciles s s' → Change s s'
Reconciles-Change s s' (inl e) = same e
Reconciles-Change s s' (inr (now, move)) = by_controller now move

module _ (K : Kube) (r : Reconciler) (L : IsLawful K) (k : NamespacedName) (w : World K) where
  unchanged : Follows (seen K r k w) (seen K r k w)
  unchanged = FollowsBy-refl Change (λ s. same refl) (seen K r k w)

  pushed-Follows :
      (report : JobStatus) (job : LmEvalJob)
      → FromDriver report
      → K.get_job w.server (report_key report) ≡ ok job
      → Follows
          (seen K r k w)
          (seen K r k (push_status K w (set_status job (merge_report job.status report))).0)
  pushed-Follows report job d h =
      let at = at_own_key K L w.server (report_key report) job h in
      let status = merge_report job.status report in
      elim (key-cases k (job_key job)) [
        | inr apart ↦ rw (L.update_status_other w.server (set_status job status) k apart) unchanged
        | inl e ↦
            let (after, there, change) =
              push_status-StoredWith K r L (Change job.status) w job job status at (same refl)
                (by_driver (merge_report-Reported job.status report d)) in
            rw (e, at, there) change
      ]

  -- Every step of the system, seen at a key, changes the status stored there as `Change` allows, or
  -- removes the job, and brings no job back.
  pub Step-Follows : (w' : World K) → Step K r k w w' → Follows (seen K r k w) (seen K r k w')
  Step-Follows w' (reconciled now other e) = rw e (
      FollowsBy-map Reconciles Change Reconciles-Change (seen K r k w)
        (seen K r k (reconcile K r now w other).0) (reconcile-FollowsBy K r L k w now other))
  Step-Follows w' (reported report d e) = rw e (
      serve-cases K (λ v. Follows (seen K r k w) (seen K r k v)) w report unchanged
        (λ job h. pushed-Follows report job d h))
  Step-Follows w' (outside o) = Outside-Follows (seen K r k w) (seen K r k w') o
