-- ===== src/Lifecycle/Laws.antt =====
-- What holds of a job in every state that the system can reach.
use fms_lm_eval_service.Prelude.{String, ◌≡◌, refl, sym, subst, ◌∙◌, Option, none, some}
use fms_lm_eval_service.Api.Core.{Time, ok, NamespacedName}
use fms_lm_eval_service.Api.Job.{LmEvalJob, LmEvalJobStatus}
use fms_lm_eval_service.Cluster.Interface.{Kube, IsLawful, World}
use fms_lm_eval_service.Pod.Options.{Reconciler}
use fms_lm_eval_service.Lifecycle.Change.{Change, IsSound, Change-IsSound, Change-Keeps}
use fms_lm_eval_service.Lifecycle.System.{status_of, seen, Reach, here, next}
use fms_lm_eval_service.Lifecycle.Refine.{Follows, Step-Follows}

-- A property of the status, if there is one.
abbrev pub IfSeen : (LmEvalJobStatus → Type 0) → Option LmEvalJobStatus → Type 0
IfSeen P none = Unit
IfSeen P (some s) = P s

Follows-IfSeen :
    (P : LmEvalJobStatus → Type 0)
    → ((s s' : LmEvalJobStatus) → Change s s' → P s → P s')
    → (o o' : Option LmEvalJobStatus) → Follows o o'
    → IfSeen P o
    → IfSeen P o'
Follows-IfSeen P keep none o' f p = rw f tt
Follows-IfSeen P keep (some s) none f p = tt
Follows-IfSeen P keep (some s) (some s') f p = keep s s' f p

-- The schedule time and the pod's name, with what keeps them.
abbrev pub Fixed : Time → String → LmEvalJobStatus → Type 0
Fixed t pod s = IsSound s × (s.last_schedule_time ≡ some t) × (s.pod_name ≡ pod)

pub Change-Fixed :
    (t : Time) (pod : String) (s s' : LmEvalJobStatus)
    → Change s s'
    → Fixed t pod s
    → Fixed t pod s'
Change-Fixed t pod s s' change (sound, e, name) =
    let (e', name') = Change-Keeps s s' change sound t e in
    (Change-IsSound s s' change sound, e', name' ∙ name)

module _ (K : Kube) (r : Reconciler) (L : IsLawful K) (k : NamespacedName) where
  pub Reach-IfSeen :
      {w w' : World K} (P : LmEvalJobStatus → Type 0)
      → ((s s' : LmEvalJobStatus) → Change s s' → P s → P s')
      → Reach K r k w w'
      → IfSeen P (seen K r k w)
      → IfSeen P (seen K r k w')
  Reach-IfSeen P keep here p = p
  Reach-IfSeen P keep (next {u} {v} reach step) p =
      Follows-IfSeen P keep (seen K r k u) (seen K r k v) (Step-Follows K r L k u v step)
        (Reach-IfSeen P keep reach p)

  module _ {w w' : World K} (job job' : LmEvalJob) (h : K.get_job w.server k ≡ ok job)
      (sound : IsSound job.status) (reach : Reach K r k w w')
      (h' : K.get_job w'.server k ≡ ok job') where
    carried :
        (P : LmEvalJobStatus → Type 0)
        → ((s s' : LmEvalJobStatus) → Change s s' → P s → P s')
        → P job.status
        → P job'.status
    carried P keep p =
        subst (λ o. IfSeen P (status_of o)) h'
          (Reach-IfSeen P keep reach (subst (λ o. IfSeen P (status_of o)) (sym h) p))

    -- If the status of a job is sound, then after any steps of the controller, of the drivers, of
    -- the cluster and of the user, in any order and whether the API calls succeed or fail, the
    -- status is sound if the job is still there: its state is "", Scheduled, Running, Complete or
    -- Cancelled, a complete job has the reason Succeeded, Failed or Cancelled, and a scheduled job
    -- has a schedule time.
    pub Reach-IsSound : IsSound job'.status
    Reach-IsSound = carried IsSound Change-IsSound sound

    -- If the status of a job is sound and has a schedule time, then after any steps of the
    -- controller, of the drivers, of the cluster and of the user, in any order and whether the API
    -- calls succeed or fail, the job, if it is still there, has the same schedule time and the same
    -- pod name.
    pub Reach-scheduled_once :
        {t : Time}
        → job.status.last_schedule_time ≡ some t
        → (job'.status.last_schedule_time ≡ some t) × (job'.status.pod_name ≡ job.status.pod_name)
    Reach-scheduled_once {t} e =
        let pod = job.status.pod_name in
        let (sound', time, name) = carried (Fixed t pod) (Change-Fixed t pod) (sound, e, refl) in
        (time, name)
