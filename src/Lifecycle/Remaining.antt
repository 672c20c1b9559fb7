-- ===== src/Lifecycle/Remaining.antt =====
-- How often Reconcile (backend/controller/lmevaljob_controller.go) may still change the status of a
-- job that has been scheduled.
use fms_lm_eval_service.Prelude.{
  ℕ, suc, ◌+◌, ◌≤◌, ◌==◌, String, ◌≡◌, refl, ap, ◌⊎◌, inl, inr, Option, none, some, is_none,
  if◌then◌else◌, arith,
}
use fms_lm_eval_service.Api.Core.{Time}
use fms_lm_eval_service.Api.Job.{LmEvalJobStatus, JobState, complete_job_state}
use fms_lm_eval_service.Reconcile.Dispatch.{HasPod}
use fms_lm_eval_service.Reconcile.Diagram.{
  Moves, stay, schedule, no_pod, pod_lost, pod_succeeded, pod_failed, wrap_up, cancel, cancel_lost,
}
use fms_lm_eval_service.Lifecycle.Change.{Change, same, by_controller, by_driver, by_user, not_new}
use fms_lm_eval_service.Lifecycle.Reconciled.{FollowsBy, Reconciles}
use fms_lm_eval_service.Lifecycle.Laws.{Fixed, IfSeen}

-- The step to a complete job, and the one to its completion time.
abbrev verdict_left : JobState → ℕ
verdict_left state = if state == complete_job_state then 0 else 1

abbrev time_left : Option Time → ℕ
time_left t = if is_none t then 1 else 0

abbrev pub remaining : LmEvalJobStatus → ℕ
remaining s = verdict_left s.state + time_left s.complete_time

-- The removal of the job counts, too.
abbrev pub remaining_seen : Option LmEvalJobStatus → ℕ
remaining_seen none = 0
remaining_seen (some s) = suc (remaining s)

-- The steps that give a verdict take one from `remaining`.
judged :
    (s : LmEvalJobStatus)
    → verdict_left s.state ≡ 1
    → suc (0 + time_left s.complete_time) ≤ remaining s
judged s e = ground arith

with_pod : (s : LmEvalJobStatus) → HasPod s → verdict_left s.state ≡ 1
with_pod s (inl e) = rw e refl
with_pod s (inr e) = rw e refl

-- A move of a scheduled job changes nothing, or there is a change less to come.
moved-remaining :
    (t now : Time) (pod : String) (s s' : LmEvalJobStatus)
    → Moves now s s'
    → Fixed t pod s
    → (s' ≡ s) ⊎ (suc (remaining s') ≤ remaining s)
moved-remaining t now pod s s' stay h = inl refl
moved-remaining t now pod s s' (schedule p (inl e)) (sound, e', name) = absurd (cc (e, e'))
moved-remaining t now pod s s' (schedule p (inr e)) (sound, e', name) = absurd (not_new s sound e)
moved-remaining t now pod s s' (no_pod x (inl e)) (sound, e', name) = absurd (cc (e, e'))
moved-remaining t now pod s s' (no_pod x (inr e)) (sound, e', name) = absurd (not_new s sound e)
moved-remaining t now pod s s' (pod_lost x p) h = inr (judged s (with_pod s p))
moved-remaining t now pod s s' (pod_succeeded x z p) h = inr (judged s (with_pod s p))
moved-remaining t now pod s s' (pod_failed x z p) h = inr (judged s (with_pod s p))
moved-remaining t now pod s s' (wrap_up e open_end) h =
    let left : time_left s.complete_time ≡ 1 = rw open_end refl in inr (ground arith)
moved-remaining t now pod s s' (cancel e) h = inr (judged s (rw e refl))
moved-remaining t now pod s s' (cancel_lost x e) h = inr (judged s (rw e refl))

-- A reconciliation changes nothing that is seen, or there is a change less to come.
pub Reconciles-remaining :
    (t : Time) (pod : String) (o o' : Option LmEvalJobStatus)
    → FollowsBy Reconciles o o'
    → IfSeen (Fixed t pod) o
    → (o' ≡ o) ⊎ (suc (remaining_seen o') ≤ remaining_seen o)
Reconciles-remaining t pod none o' e h = inl e
Reconciles-remaining t pod (some s) none _ h = inr (ground arith)
Reconciles-remaining t pod (some s) (some s') (inl e) h = inl (ap some e)
Reconciles-remaining t pod (some s) (some s') (inr (now, move)) h =
    elim (moved-remaining t now pod s s' move h) [
      | inl e ↦ inl (ap some e)
      | inr less ↦ inr (ground arith)
    ]

verdict_left-bound : (state : JobState) → verdict_left state ≤ 1
verdict_left-bound state = ground arith

same_time :
    (s s' : LmEvalJobStatus) → s'.complete_time ≡ s.complete_time → remaining s' ≤ suc (remaining s)
same_time s s' e =
    let times : time_left s'.complete_time ≡ time_left s.complete_time = ap time_left e in
    let bound = verdict_left-bound s'.state in ground arith

Change-remaining :
    (t : Time) (pod : String) (s s' : LmEvalJobStatus)
    → Change s s'
    → Fixed t pod s
    → remaining s' ≤ suc (remaining s)
Change-remaining t pod s s' (same e) h = same_time s s' (ap (λ x. x.complete_time) e)
Change-remaining t pod s s' (by_controller now move) h =
    elim (moved-remaining t now pod s s' move h) [
      | inl e ↦ same_time s s' (ap (λ x. x.complete_time) e)
      | inr less ↦ ground arith
    ]
Change-remaining t pod s s' (by_driver (inl e)) h = same_time s s' (ap (λ x. x.complete_time) e)
Change-remaining t pod s s' (by_driver (inr (inl (_, e)))) h =
    same_time s s' (ap (λ x. x.complete_time) e)
Change-remaining t pod s s' (by_driver (inr (inr (_, e)))) h =
    same_time s s' (ap (λ x. x.complete_time) e)
Change-remaining t pod s s' (by_user e) h = same_time s s' (ap (λ x. x.complete_time) e)

-- Any other step leaves at most one change more to come.
pub Follows-remaining :
    (t : Time) (pod : String) (o o' : Option LmEvalJobStatus)
    → FollowsBy Change o o'
    → IfSeen (Fixed t pod) o
    → remaining_seen o' ≤ suc (remaining_seen o)
Follows-remaining t pod none o' e h = rw e (ground arith)
Follows-remaining t pod (some s) none _ h = ground arith
Follows-remaining t pod (some s) (some s') change h =
    let more = Change-remaining t pod s s' change h in ground arith

pub remaining_seen-bound : (o : Option LmEvalJobStatus) → remaining_seen o ≤ 3
remaining_seen-bound none = ground arith
remaining_seen-bound (some s) =
    let verdict = verdict_left-bound s.state in
    let time : time_left s.complete_time ≤ 1 = ground arith in ground arith
