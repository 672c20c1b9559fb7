-- ===== src/Lifecycle/Change.antt =====
-- How the status of a job may change: by Reconcile, by a report of the driver, by the user.
use fms_lm_eval_service.Prelude.{
  String, ◌==◌, false, subst, ap, ◌≡◌, refl, ◌≢◌, ◌⊎◌, inl, inr, some, [], ◌∷◌, Any, sym, ◌∙◌,
  str_ne,
}
use fms_lm_eval_service.Api.Core.{Time, Result, ok, err}
use fms_lm_eval_service.Api.Job.{
  JobState, Reason, LmEvalJobStatus, new_job_state, scheduled_job_state, running_job_state,
  complete_job_state, cancelled_job_state, no_reason, succeed_reason, failed_reason,
  cancelled_reason,
}
use fms_lm_eval_service.Api.Backend.{JobStatus}
use fms_lm_eval_service.Grpc.Status.{merge_report, message_or}
use fms_lm_eval_service.Driver.Connect.{DriverOption}
use fms_lm_eval_service.Driver.Run.{running_report, complete_report}
use fms_lm_eval_service.Reconcile.Diagram.{
  Moves, stay, schedule, no_pod, pod_lost, pod_succeeded, pod_failed, wrap_up, cancel, cancel_lost,
}

-- A report that a driver makes: that it runs, or its results, or an error.
abbrev pub FromDriver : JobStatus → Type 0
FromDriver report =
    (option : DriverOption) × ((report ≡ running_report option)
      ⊎ ((results : Result String) × (report ≡ complete_report option results)))

-- What such a report leaves of a status: the driver runs, has results, or has failed.
abbrev pub Reported : LmEvalJobStatus → LmEvalJobStatus → Type 0
Reported s s' =
    (s' ≡ record s {
      state = running_job_state;
      reason = no_reason;
      message = "update status from the driver: running";
    })
    ⊎ (((results : String) × (s' ≡ record s {
      state = complete_job_state;
      reason = succeed_reason;
      message = "update status from the driver: completed";
      results = results;
    }))
        ⊎ ((message : String) × (s' ≡ record s {
          state = complete_job_state;
          reason = failed_reason;
          message = message;
        })))

pub data Change (s s' : LmEvalJobStatus) : Type 0 where
  same : s' ≡ s → Change s s'
  by_controller : (now : Time) → Moves now s s' → Change s s'
  by_driver : Reported s s' → Change s s'
  by_user : s' ≡ record s { state = cancelled_job_state } → Change s s'

-- The states in which a job is stored; "" before the controller has changed it.
abbrev pub IsState : JobState → Type 0
IsState state =
    Any (λ known. state ≡ known)
      ("" ∷ scheduled_job_state ∷ running_job_state ∷ complete_job_state ∷ cancelled_job_state ∷ [])

abbrev pub IsVerdict : Reason → Type 0
IsVerdict reason =
    Any (λ known. reason ≡ known) (succeed_reason ∷ failed_reason ∷ cancelled_reason ∷ [])

-- The state is one of those above; a complete job has a verdict, a scheduled one a schedule time.
pub record IsSound (s : LmEvalJobStatus) : Type 0 where
  pub known : IsState s.state
  pub judged : s.state ≡ complete_job_state → IsVerdict s.reason
  pub scheduled : s.state ≡ scheduled_job_state → (t : Time) × (s.last_schedule_time ≡ some t)

clash : {state : JobState} (a b : JobState) → (a == b) ≡ false → state ≡ a → ¬ (state ≡ b)
clash a b other e f = str_ne a b other (sym e ∙ f)

pub not_new : (s : LmEvalJobStatus) → IsSound s → s.state ≢ new_job_state
not_new s h e = elim h.known [
  | inl f ↦ clash "" new_job_state refl f e
  | inr (inl f) ↦ clash scheduled_job_state new_job_state refl f e
  | inr (inr (inl f)) ↦ clash running_job_state new_job_state refl f e
  | inr (inr (inr (inl f))) ↦ clash complete_job_state new_job_state refl f e
  | inr (inr (inr (inr (inl f)))) ↦ clash cancelled_job_state new_job_state refl f e
  | inr (inr (inr (inr (inr f)))) ↦ f
]

complete-IsSound :
    (s : LmEvalJobStatus) → s.state ≡ complete_job_state → IsVerdict s.reason → IsSound s
complete-IsSound s e verdict = record {
  known = inr (inr (inr (inl e)));
  judged = λ _. verdict;
  scheduled = λ f. absurd (clash complete_job_state scheduled_job_state refl e f);
}

running-IsSound : (s : LmEvalJobStatus) → s.state ≡ running_job_state → IsSound s
running-IsSound s e = record {
  known = inr (inr (inl e));
  judged = λ f. absurd (clash running_job_state complete_job_state refl e f);
  scheduled = λ f. absurd (clash running_job_state scheduled_job_state refl e f);
}

cancelled-IsSound : (s : LmEvalJobStatus) → s.state ≡ cancelled_job_state → IsSound s
cancelled-IsSound s e = record {
  known = inr (inr (inr (inr (inl e))));
  judged = λ f. absurd (clash cancelled_job_state complete_job_state refl e f);
  scheduled = λ f. absurd (clash cancelled_job_state scheduled_job_state refl e f);
}

Moves-IsSound : {now : Time} {s s' : LmEvalJobStatus} → Moves now s s' → IsSound s → IsSound s'
Moves-IsSound stay h = h
Moves-IsSound {now} {s} (schedule pod u) h = record {
  known = inr (inl refl);
  judged = λ f. absurd (clash scheduled_job_state complete_job_state refl refl f);
  scheduled = λ _. (now, refl);
}
Moves-IsSound (no_pod e u) h = complete-IsSound _ refl (inr (inl refl))
Moves-IsSound (pod_lost e p) h = complete-IsSound _ refl (inr (inl refl))
Moves-IsSound (pod_succeeded t z p) h = complete-IsSound _ refl (inl refl)
Moves-IsSound (pod_failed t z p) h = complete-IsSound _ refl (inr (inl refl))
Moves-IsSound (wrap_up e c) h = complete-IsSound _ e (h.judged e)
Moves-IsSound (cancel e) h = complete-IsSound _ refl (inr (inr (inl refl)))
Moves-IsSound (cancel_lost x e) h = complete-IsSound _ refl (inr (inl refl))

-- The server merges a driver's report as it means it.
pub merge_report-Reported :
    (s : LmEvalJobStatus) (report : JobStatus)
    → FromDriver report
    → Reported s (merge_report s report)
unfolding merge_report running_report complete_report
merge_report-Reported s report (option, inl e) = rw e (inl refl)
merge_report-Reported s report (option, inr (ok results, e)) = rw e (inr (inl (results, refl)))
merge_report-Reported s report (option, inr (err x, e)) =
    rw e (inr (inr (message_or s.message x.message, refl)))

Reported-IsSound : (s s' : LmEvalJobStatus) → Reported s s' → IsSound s'
Reported-IsSound s s' (inl e) = running-IsSound s' (ap (λ r. r.state) e)
Reported-IsSound s s' (inr (inl (results, e))) =
    complete-IsSound s' (ap (λ r. r.state) e) (inl (ap (λ r. r.reason) e))
Reported-IsSound s s' (inr (inr (message, e))) =
    complete-IsSound s' (ap (λ r. r.state) e) (inr (inl (ap (λ r. r.reason) e)))

-- Every change keeps a sound status sound.
pub Change-IsSound : (s s' : LmEvalJobStatus) → Change s s' → IsSound s → IsSound s'
Change-IsSound s s' (same e) h = subst IsSound (sym e) h
Change-IsSound s s' (by_controller now m) h = Moves-IsSound m h
Change-IsSound s s' (by_driver report) h = Reported-IsSound s s' report
Change-IsSound s s' (by_user e) h = cancelled-IsSound s' (ap (λ r. r.state) e)

-- The schedule time, once it is set, and the pod's name beside it, stay.
abbrev pub Keeps : LmEvalJobStatus → LmEvalJobStatus → Type 0
Keeps s s' =
    (t : Time)
    → s.last_schedule_time ≡ some t
    → (s'.last_schedule_time ≡ some t) × (s'.pod_name ≡ s.pod_name)

Moves-Keeps : {now : Time} {s s' : LmEvalJobStatus} → Moves now s s' → IsSound s → Keeps s s'
Moves-Keeps stay h t e = (e, refl)
Moves-Keeps (schedule pod (inl fresh)) h t e = absurd (cc (fresh, e))
Moves-Keeps {now} {s} (schedule pod (inr new)) h t e = absurd (not_new s h new)
Moves-Keeps (no_pod x u) h t e = (e, refl)
Moves-Keeps (pod_lost x p) h t e = (e, refl)
Moves-Keeps (pod_succeeded end z p) h t e = (e, refl)
Moves-Keeps (pod_failed end z p) h t e = (e, refl)
Moves-Keeps (wrap_up x c) h t e = (e, refl)
Moves-Keeps (cancel x) h t e = (e, refl)
Moves-Keeps (cancel_lost x y) h t e = (e, refl)

Reported-Keeps : (s s' : LmEvalJobStatus) → Reported s s' → Keeps s s'
Reported-Keeps s s' (inl e) t x = (ap (λ r. r.last_schedule_time) e ∙ x, ap (λ r. r.pod_name) e)
Reported-Keeps s s' (inr (inl (results, e))) t x =
    (ap (λ r. r.last_schedule_time) e ∙ x, ap (λ r. r.pod_name) e)
Reported-Keeps s s' (inr (inr (message, e))) t x =
    (ap (λ r. r.last_schedule_time) e ∙ x, ap (λ r. r.pod_name) e)

pub Change-Keeps : (s s' : LmEvalJobStatus) → Change s s' → IsSound s → Keeps s s'
Change-Keeps s s' (same e) h t x = (ap (λ r. r.last_schedule_time) e ∙ x, ap (λ r. r.pod_name) e)
Change-Keeps s s' (by_controller now m) h t x = Moves-Keeps m h t x
Change-Keeps s s' (by_driver report) h t x = Reported-Keeps s s' report t x
Change-Keeps s s' (by_user e) h t x = (ap (λ r. r.last_schedule_time) e ∙ x, ap (λ r. r.pod_name) e)
