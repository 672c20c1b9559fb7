-- ===== src/Driver/Report.antt =====
-- The driver's run against the server's UpdateStatus: what is stored when the driver has ended.
use fms_lm_eval_service.Prelude.{String, ap, ◌≡◌, refl, Option, none, some, inl, inr, Option-cases}
use fms_lm_eval_service.Text.Strings.{IsBlank}
use fms_lm_eval_service.Api.Core.{Error, Result, ok, err, NamespacedName}
use fms_lm_eval_service.Api.Job.{
  LmEvalJob, LmEvalJobStatus, complete_job_state, succeed_reason, failed_reason,
}
use fms_lm_eval_service.Cluster.Interface.{Kube, IsLawful, World}
use fms_lm_eval_service.Reconcile.Base.{set_status}
use fms_lm_eval_service.Grpc.Status.{message_or, merge_report, serve_update_status}
use fms_lm_eval_service.Grpc.Laws.{serve-merged}
use fms_lm_eval_service.Driver.Connect.{DriverOption}
use fms_lm_eval_service.Driver.Run.{
  Host, Client, returned, exec, dump_logs, outcome, running_report, complete_report, run, end_run,
}

-- The server of a cluster, as a client sees it.
abbrev pub served : Kube → Client
served K = record {
  Service = World K;
  send = λ w report. let (w', response, e) = serve_update_status K w report in (w', e);
}

-- The key of the job that a driver works for.
abbrev pub own_key : DriverOption → NamespacedName
own_key option = record { namespace = option.job_namespace; name = option.job_name }

-- A job's status after a run, from the results or the error.
abbrev pub verdict : LmEvalJobStatus → Result String → LmEvalJobStatus
verdict status (ok results) = record status {
  state = complete_job_state;
  reason = succeed_reason;
  message = "update status from the driver: completed";
  results = results;
}
verdict status (err e) = record status {
  state = complete_job_state;
  reason = failed_reason;
  message = message_or "update status from the driver: running" e.message;
}

module _ (H : Host) (C : Client) (option : DriverOption) (service : C.Service)
    (files : H.Files) where
  pub run-refused :
      (e : Error)
      → (C.send service (running_report option)).1 ≡ some e
      → run H C option service files
        ≡ ((C.send service (running_report option)).0, files, returned (some e))
  run-refused e h = unfold run in rw (run, h)

  pub run-announced :
      (C.send service (running_report option)).1 ≡ none
      → run H C option service files
        ≡ end_run H C option (C.send service (running_report option)).0 (exec H option files)
  run-announced h = unfold run in rw (run, h)

  -- A run that ends without an error has had both reports accepted.
  pub run-accepted :
      (failed : Option Error)
      → (exec H option files).1 ≡ returned failed
      → (run H C option service files).2 ≡ returned none
      → let ended = dump_logs H option (exec H option files).0 in
        let first = C.send service (running_report option) in
        let last = C.send first.0 (complete_report option (outcome H option ended failed)) in
        (first.1 ≡ none) × (last.1 ≡ none) × ((run H C option service files).0 ≡ last.0)
  run-accepted failed r = elim (Option-cases (C.send service (running_report option)).1) [
    | inl n ↦ rw (run-announced n, r) (λ d. (cc, cc, refl))
    | inr (e, s) ↦ rw (run-refused e s) (λ d. absurd cc)
  ]

merge-verdict :
    (option : DriverOption) (status : LmEvalJobStatus) (results : Result String)
    → merge_report (merge_report status (running_report option)) (complete_report option results)
      ≡ verdict status results
unfolding merge_report running_report complete_report
merge-verdict option status (ok results) = refl
merge-verdict option status (err e) = refl

module _ (K : Kube) (L : IsLawful K) (option : DriverOption) (w : World K)
    (named : ¬ IsBlank option.job_name) (placed : ¬ IsBlank option.job_namespace) where
  announced :
      (job : LmEvalJob)
      → K.get_job w.server (own_key option) ≡ ok job
      → (serve_update_status K w (running_report option)).2 ≡ none
      → K.get_job (serve_update_status K w (running_report option)).0.server (own_key option)
        ≡ ok (set_status job (merge_report job.status (running_report option)))
  unfolding running_report
  announced job h = serve-merged K L w (running_report option) named placed job h

  closed :
      (results : Result String) (job : LmEvalJob)
      → K.get_job w.server (own_key option) ≡ ok job
      → (serve_update_status K w (complete_report option results)).2 ≡ none
      → K.get_job
          (serve_update_status K w (complete_report option results)).0.server
          (own_key option)
        ≡ ok (set_status job (merge_report job.status (complete_report option results)))
  unfolding complete_report
  closed (ok r) job h = serve-merged K L w (complete_report option (ok r)) named placed job h
  closed (err e) job h = serve-merged K L w (complete_report option (err e)) named placed job h

module _ (K : Kube) (L : IsLawful K) (H : Host) (option : DriverOption) (w : World K)
    (files : H.Files) (named : ¬ IsBlank option.job_name)
    (placed : ¬ IsBlank option.job_namespace) where
  -- If the driver's names are not blank, their job is stored, the program has been run or could not
  -- be started, and the driver then ends without an error, then the stored job is complete: with
  -- the results and the reason Succeeded if the program succeeded and the results were retrieved,
  -- with the error's message and the reason Failed if not; the rest of the job is unchanged.
  pub run-stored :
      (job : LmEvalJob)
      → K.get_job w.server (own_key option) ≡ ok job
      → (failed : Option Error) → (exec H option files).1 ≡ returned failed
      → (run H (served K) option w files).2 ≡ returned none
      → K.get_job (run H (served K) option w files).0.server (own_key option)
        ≡ ok (
            set_status job (
              verdict job.status
                (outcome H option (dump_logs H option (exec H option files).0) failed)))
  run-stored job h failed r done =
      let (first, last, e) = run-accepted H (served K) option w files failed r done in
      let w1 = (serve_update_status K w (running_report option)).0 in
      let results = outcome H option (dump_logs H option (exec H option files).0) failed in
      let m1 = announced K L option w named placed job h first in
      rw (e, closed K L option w1 named placed results _ m1 last)
        (ap (λ s. ok (set_status job s)) (merge-verdict option job.status results))
