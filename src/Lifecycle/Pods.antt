-- ===== src/Lifecycle/Pods.antt =====
-- How often a pod is created for a job (Reconcile of
-- backend/controller/lmevaljob_controller.go).
use fms_lm_eval_service.Prelude.{◌≡◌, ◌++◌, some, List, [], ◌∷◌, inl, inr}
use fms_lm_eval_service.Api.Core.{Time, ok, NamespacedName}
use fms_lm_eval_service.Api.Job.{LmEvalJob}
use fms_lm_eval_service.Cluster.Interface.{Kube, IsLawful, World}
use fms_lm_eval_service.Pod.Options.{Reconciler}
use fms_lm_eval_service.Reconcile.Handlers.{reconcile}
use fms_lm_eval_service.Reconcile.Trace.{reconcile-Plan}
use fms_lm_eval_service.Reconcile.Calls.{
  Call, created, Logs, Plan, idle, attach, create, note, drop, drop_note, release, drop_release,
}
use fms_lm_eval_service.Lifecycle.Change.{IsSound, not_new}
use fms_lm_eval_service.Lifecycle.System.{Reach}
use fms_lm_eval_service.Lifecycle.Laws.{Reach-IsSound, Reach-scheduled_once}

abbrev pub CreatesNone : List Call → Type 0
CreatesNone [] = Unit
CreatesNone (created pod ∷ calls) = ⊥
CreatesNone (_ ∷ calls) = CreatesNone calls

module _ (K : Kube) (r : Reconciler) (now : Time) (server : K.Server) (job : LmEvalJob)
    (sound : IsSound job.status) {t : Time}
    (scheduled : job.status.last_schedule_time ≡ some t) where
  Plan-CreatesNone : {calls : List Call} → Plan K r now server job calls → CreatesNone calls
  Plan-CreatesNone idle = tt
  Plan-CreatesNone (attach s begun lacks) = tt
  Plan-CreatesNone (create s made begun held (inl fresh) done) = cc (fresh, scheduled)
  Plan-CreatesNone (create s made begun held (inr new) done) = not_new job.status sound new
  Plan-CreatesNone (note s) = tt
  Plan-CreatesNone drop = tt
  Plan-CreatesNone (drop_note s) = tt
  Plan-CreatesNone (release holds) = tt
  Plan-CreatesNone (drop_release holds) = tt

module _ (K : Kube) (r : Reconciler) (L : IsLawful K) (k : NamespacedName) {w w' : World K} where
  -- If the status of a job is sound and has a schedule time, then after any steps of the controller,
  -- of the drivers, of the cluster and of the user, in any order, a reconciliation of the job, if
  -- it is still there, asks the API for no pod.
  pub Reach-CreatesNone :
      (log : K.Server → List Call)
      → Logs K log
      → (job job' : LmEvalJob) → K.get_job w.server k ≡ ok job
      → IsSound job.status
      → {t : Time} → job.status.last_schedule_time ≡ some t
      → Reach K r k w w'
      → K.get_job w'.server k ≡ ok job'
      → (now : Time)
      → (calls : List Call) × (log (reconcile K r now w' k).0.server ≡ log w'.server ++ calls)
        × CreatesNone calls
  Reach-CreatesNone log X job job' h sound e reach h' now =
      let (calls, logged, plan) = reconcile-Plan K r log X now w' k job' h' in
      let sound' = Reach-IsSound K r L k job job' h sound reach h' in
      let (e', name) = Reach-scheduled_once K r L k job job' h sound reach h' e in
      (calls, logged, Plan-CreatesNone K r now w'.server job' sound' e' plan)
