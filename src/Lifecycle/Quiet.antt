-- ===== src/Lifecycle/Quiet.antt =====
-- The reconciliations of backend/controller/lmevaljob_controller.go come to rest: how often they
-- change the status of a scheduled job, against what the drivers, the cluster and the user do.
use fms_lm_eval_service.Prelude.{
  String, ℕ, suc, ◌+◌, ◌≤◌, ◌≡◌, refl, sym, subst, ◌≢◌, inl, inr, some, arith,
}
use fms_lm_eval_service.Api.Core.{Time, ok, NamespacedName}
use fms_lm_eval_service.Api.Job.{LmEvalJob}
use fms_lm_eval_service.Api.Backend.{JobStatus}
use fms_lm_eval_service.Cluster.Interface.{Kube, IsLawful, World}
use fms_lm_eval_service.Pod.Options.{Reconciler}
use fms_lm_eval_service.Grpc.Status.{serve_update_status}
use fms_lm_eval_service.Reconcile.Handlers.{reconcile}
use fms_lm_eval_service.Lifecycle.Change.{FromDriver, IsSound}
use fms_lm_eval_service.Lifecycle.System.{
  Outside, status_of, seen, Step, Reach, here, next, reconciled, reported, outside,
}
use fms_lm_eval_service.Lifecycle.Reconciled.{reconcile-FollowsBy}
use fms_lm_eval_service.Lifecycle.Refine.{Step-Follows}
use fms_lm_eval_service.Lifecycle.Laws.{Fixed, Change-Fixed, IfSeen, Reach-IfSeen}
use fms_lm_eval_service.Lifecycle.Remaining.{
  remaining_seen, remaining_seen-bound, Reconciles-remaining, Follows-remaining,
}

module _ (K : Kube) (r : Reconciler) (k : NamespacedName) where
  -- A run of the system from `w`, with the number of the reconciliations that changed the status under
  -- the key, or removed the job, and the number of the other parts' steps.
  pub data Counted (w : World K) : ℕ → ℕ → World K → Type 0 where
    begin : Counted w 0 0 w
    idle :
        {c o : ℕ} {u v : World K}
        → Counted w c o u
        → (now : Time) (other : NamespacedName) → v ≡ (reconcile K r now u other).0
        → seen K r k v ≡ seen K r k u
        → Counted w c o v
    acted :
        {c o : ℕ} {u v : World K}
        → Counted w c o u
        → (now : Time) (other : NamespacedName) → v ≡ (reconcile K r now u other).0
        → seen K r k v ≢ seen K r k u
        → Counted w (suc c) o v
    report :
        {c o : ℕ} {u v : World K}
        → Counted w c o u
        → (status : JobStatus) → FromDriver status
        → v ≡ (serve_update_status K u status).0
        → Counted w c (suc o) v
    aside :
        {c o : ℕ} {u v : World K}
        → Counted w c o u
        → Outside (seen K r k u) (seen K r k v)
        → Counted w c (suc o) v

  Counted-Reach : {w v : World K} {c o : ℕ} → Counted w c o v → Reach K r k w v
  Counted-Reach begin = here
  Counted-Reach (idle run now other e same) = next (Counted-Reach run) (reconciled now other e)
  Counted-Reach (acted run now other e new) = next (Counted-Reach run) (reconciled now other e)
  Counted-Reach (report run status d e) = next (Counted-Reach run) (reported status d e)
  Counted-Reach (aside run o) = next (Counted-Reach run) (outside o)

  module _ (L : IsLawful K) (w : World K) (job : LmEvalJob) (h : K.get_job w.server k ≡ ok job)
      (t : Time) (fixed : Fixed t job.status.pod_name job.status) where
    abbrev pod : String
    pod = job.status.pod_name

    still : {c o : ℕ} (u : World K) → Counted w c o u → IfSeen (Fixed t pod) (seen K r k u)
    still u run =
        Reach-IfSeen K r L k (Fixed t pod) (Change-Fixed t pod) (Counted-Reach run)
          (subst (λ x. IfSeen (Fixed t pod) (status_of x)) (sym h) fixed)

    stepped :
        (u v : World K)
        → Step K r k u v
        → IfSeen (Fixed t pod) (seen K r k u)
        → remaining_seen (seen K r k v) ≤ suc (remaining_seen (seen K r k u))
    stepped u v step fixed =
        Follows-remaining t pod (seen K r k u) (seen K r k v) (Step-Follows K r L k u v step) fixed

    budget :
        {c o : ℕ} (v : World K)
        → Counted w c o v
        → c + remaining_seen (seen K r k v) ≤ o + remaining_seen (seen K r k w)
    budget v begin = ground arith
    budget v (idle {c} {o} {u} run now other e same) = let before = budget u run in rw same before
    budget v (acted {c} {o} {u} run now other e new) =
        let before = budget u run in
        let less =
          Reconciles-remaining t pod (seen K r k u) (seen K r k v)
            (rw e (reconcile-FollowsBy K r L k u now other)) (still u run) in
        elim less [ inl same ↦ absurd (new same) | inr l ↦ ground arith ]
    budget v (report {c} {o} {u} run status d e) =
        let before = budget u run in
        let more = stepped u v (reported status d e) (still u run) in ground arith
    budget v (aside {c} {o} {u} run moved) =
        let before = budget u run in
        let more = stepped u v (outside moved) (still u run) in ground arith

  -- If the status of a job is sound and has a schedule time, then in any run from there, in any order
  -- and whether the API calls succeed or fail, the reconciliations change the status, or remove the
  -- job, at most three times more often than the drivers, the cluster and the user make a step.
  pub Counted-bound :
      (L : IsLawful K) {w v : World K} (job : LmEvalJob)
      → K.get_job w.server k ≡ ok job
      → IsSound job.status
      → (t : Time) → job.status.last_schedule_time ≡ some t
      → {c o : ℕ} → Counted w c o v
      → c ≤ o + 3
  Counted-bound L {w} {v} job h sound t e run =
      let spent = budget L w job h t (sound, e, refl) v run in
      let bound = remaining_seen-bound (seen K r k w) in ground arith
