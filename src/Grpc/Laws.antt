-- ===== src/Grpc/Laws.antt =====
-- What the driver's reports do to the stored jobs (updateStatus, UpdateStatus).
use fms_lm_eval_service.Prelude.{
  String, ◌==◌, eq_iff, false, ◌≡◌, refl, ◌↔◌, ◌⊎◌, inl, inr, Option, none, some, arith, Bool-cases,
}
use fms_lm_eval_service.Text.Strings.{trim_spaces, IsBlank, trim_spaces_iff, trim_spaces-blank}
use fms_lm_eval_service.Api.Core.{Error, errorf, ok, err}
use fms_lm_eval_service.Api.Job.{LmEvalJob}
use fms_lm_eval_service.Api.Backend.{JobStatus, response_ok, response_error}
use fms_lm_eval_service.Cluster.Interface.{Kube, IsLawful, World, push_status}
use fms_lm_eval_service.Cluster.Laws.{status_written}
use fms_lm_eval_service.Reconcile.Base.{set_status}
use fms_lm_eval_service.Grpc.Status.{
  message_or, results_or, response, merge_report, report_key, update_status, serve_update_status,
}

serve-code_of :
    (answer : Option Error)
    → ((response answer).code ≡ response_error)
      ↔ ((e : Error) × (answer ≡ some e) × ((response answer).message ≡ e.message))
serve-code_of none = ground arith
serve-code_of (some e) = (λ _. (e, refl, refl), λ _. refl)

module _ (K : Kube) (w : World K) (report : JobStatus) where
  pub update_status-blank :
      IsBlank report.job_name ⊎ IsBlank report.job_namespace
      → update_status K w report ≡ (w, some (errorf "JobName or JobNameSpace is empty"))
  update_status-blank (inl b) =
      unfold update_status in rw (update_status, trim_spaces-blank report.job_name b)
  update_status-blank (inr b) =
      unfold update_status in
      rw (update_status, trim_spaces-blank report.job_namespace b) (ground arith)

  solid : (s : String) → ¬ IsBlank s → (trim_spaces s == "") ≡ false
  solid s nb = elim (Bool-cases (trim_spaces s == "")) [
    | inl e ↦ absurd (nb ((trim_spaces_iff s).0 ((eq_iff _ _).0 e)))
    | inr n ↦ n
  ]

  module _ (named : ¬ IsBlank report.job_name) (placed : ¬ IsBlank report.job_namespace) where
    pub update_status-named :
        (job : LmEvalJob)
        → K.get_job w.server (report_key report) ≡ ok job
        → update_status K w report
          ≡ push_status K w (set_status job (merge_report job.status report))
    update_status-named job h =
        unfold update_status in
        rw (update_status, solid report.job_name named, solid report.job_namespace placed, h)

    pub update_status-absent :
        (e : Error)
        → K.get_job w.server (report_key report) ≡ err e
        → update_status K w report ≡ (w, some e)
    update_status-absent e h =
        unfold update_status in
        rw (update_status, solid report.job_name named, solid report.job_namespace placed, h)

    -- If the names are not blank and the API gives an error for the job, the response has the code
    -- ERROR and the error's message, the error is returned, and nothing changes.
    pub serve-absent :
        (e : Error)
        → K.get_job w.server (report_key report) ≡ err e
        → serve_update_status K w report
          ≡ (w, record { code = response_error; message = e.message }, some e)
    serve-absent e h =
        unfold serve_update_status in rw (serve_update_status, update_status-absent e h)

  -- A report whose job name or namespace is empty or blank is answered with an error, and changes
  -- nothing.
  pub serve-blank :
      IsBlank report.job_name ⊎ IsBlank report.job_namespace
      → serve_update_status K w report ≡ (
        w,
        record { code = response_error; message = "JobName or JobNameSpace is empty" },
        some (errorf "JobName or JobNameSpace is empty"),
      )
  serve-blank b = unfold serve_update_status in rw (serve_update_status, update_status-blank b)

  -- The response has the code ERROR exactly when an error is returned, and then its message is the
  -- error's.
  pub serve-code : ((serve_update_status K w report).1.code ≡ response_error) ↔ (
      (e : Error) × ((serve_update_status K w report).2 ≡ some e)
      × ((serve_update_status K w report).1.message ≡ e.message))
  unfolding serve_update_status
  serve-code = serve-code_of (update_status K w report).1

module _ (K : Kube) (L : IsLawful K) (w : World K) (report : JobStatus)
    (named : ¬ IsBlank report.job_name) (placed : ¬ IsBlank report.job_namespace) where
  -- If the reported names are not blank, a job is stored under the reported name and namespace, and the
  -- status update succeeds, then its state and reason become the reported ones, its message the reported one unless that is
  -- empty, its results the reported ones if there are any; the rest of the job is unchanged, and the
  -- response is OK with no error.
  pub serve-stored :
      (job : LmEvalJob)
      → K.get_job w.server (report_key report) ≡ ok job
      → (K.update_status w.server (set_status job (merge_report job.status report))).1 ≡ none
      → (K.get_job (serve_update_status K w report).0.server (report_key report)
          ≡ ok (
              set_status job (record (job.status) {
                state = report.state;
                reason = report.reason;
                message = message_or job.status.message report.status_message;
                results = results_or job.status.results report.results;
              })))
        × ((serve_update_status K w report).1.code ≡ response_ok)
        × ((serve_update_status K w report).2 ≡ none)
  serve-stored job h done =
      let e = update_status-named K w report named placed job h in
      let written = status_written K L w.server (report_key report) job h _ done in
      unfold serve_update_status in
      rw (serve_update_status, e, done) (unfold merge_report in written, refl, refl)

  -- A report that is answered with no error has been merged into the stored job.
  pub serve-merged :
      (job : LmEvalJob)
      → K.get_job w.server (report_key report) ≡ ok job
      → (serve_update_status K w report).2 ≡ none
      → K.get_job (serve_update_status K w report).0.server (report_key report)
        ≡ ok (set_status job (merge_report job.status report))
  unfolding serve_update_status
  serve-merged job h = rw (update_status-named K w report named placed job h) (λ done.
      status_written K L w.server (report_key report) job h (merge_report job.status report) done)
