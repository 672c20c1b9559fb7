-- ===== src/Grpc/Accept.antt =====
-- Which of the driver's reports UpdateStatus (backend/controller/grpc_server.go) accepts.
use fms_lm_eval_service.Prelude.{◌≡◌, refl, subst, ◌↔◌, ◌⊎◌, inl, inr, Option, none, some}
use fms_lm_eval_service.Text.Strings.{IsBlank, dec-IsBlank}
use fms_lm_eval_service.Api.Core.{Error, ok, Result-cases}
use fms_lm_eval_service.Api.Job.{LmEvalJob}
use fms_lm_eval_service.Api.Backend.{JobStatus, response_ok}
use fms_lm_eval_service.Cluster.Interface.{Kube, World, push_status}
use fms_lm_eval_service.Reconcile.Base.{set_status}
use fms_lm_eval_service.Grpc.Status.{
  response, merge_report, report_key, update_status, serve_update_status,
}
use fms_lm_eval_service.Grpc.Laws.{update_status-blank, update_status-absent, update_status-named}

answered_iff :
    {A : Type 0} (e : Option Error)
    → (e ≡ none ↔ A)
    → ((response e).code ≡ response_ok ↔ A) × (e ≡ none ↔ A)
answered_iff none h = ((λ c. h.0 refl, λ a. refl), h)
answered_iff (some e) h = ((λ c. absurd cc, λ a. absurd (cc (h.1 a))), h)

module _ (K : Kube) (w : World K) (report : JobStatus) where
  -- What a report needs to be accepted.
  pub record IsAccepted : Type 0 where
    pub named : ¬ IsBlank report.job_name
    pub placed : ¬ IsBlank report.job_namespace
    pub job : LmEvalJob
    pub stored : K.get_job w.server (report_key report) ≡ ok job
    pub written :
        (K.update_status w.server (set_status job (merge_report job.status report))).1 ≡ none

  -- The world is left alone, or the status of the stored job has been written with the report.
  abbrev pub WritesOne : World K → Type 0
  WritesOne w' =
      (w' ≡ w)
      ⊎ ((job : LmEvalJob) × (K.get_job w.server (report_key report) ≡ ok job)
          × (w' ≡ (push_status K w (set_status job (merge_report job.status report))).0))

  the_job :
      (job : LmEvalJob)
      → K.get_job w.server (report_key report) ≡ ok job
      → (a : IsAccepted) → a.job ≡ job
  the_job job h a = cc (h, a.stored)

  update_status_iff :
      ((update_status K w report).1 ≡ none ↔ IsAccepted) × WritesOne (update_status K w report).0
  update_status_iff = elim (dec-IsBlank report.job_name) [
    | inl b ↦
        rw (update_status-blank K w report (inl b))
          ((λ e. absurd cc, λ a. absurd (a.named b)), inl refl)
    | inr named ↦ elim (dec-IsBlank report.job_namespace) [
      | inl b ↦
          rw (update_status-blank K w report (inr b))
            ((λ e. absurd cc, λ a. absurd (a.placed b)), inl refl)
      | inr placed ↦ elim (Result-cases (K.get_job w.server (report_key report))) [
        | inr (e, h) ↦
            rw (update_status-absent K w report named placed e h)
              ((λ x. absurd cc, λ a. absurd (cc (a.stored, h))), inl refl)
        | inl (job, h) ↦ rw (update_status-named K w report named placed job h) (
          (
            λ done. record {
              named = named;
              placed = placed;
              job = job;
              stored = h;
              written = done;
            },
            λ a.
                subst
                  (λ j.
                    (K.update_status w.server (set_status j (merge_report j.status report))).1
                    ≡ none)
                  (the_job job h a) a.written,
          ),
          inr (job, h, refl),
        )
      ]
    ]
  ]

  -- A report is answered with the code OK exactly when no error is returned, and both exactly when
  -- neither of its names is blank, a job is stored under them, and the update of its status with the
  -- merged report succeeds. Whatever the answer is, nothing is done but this update, if there is a
  -- job for it.
  pub serve_iff :
      ((serve_update_status K w report).1.code ≡ response_ok ↔ IsAccepted)
      × ((serve_update_status K w report).2 ≡ none ↔ IsAccepted)
      × WritesOne (serve_update_status K w report).0
  unfolding serve_update_status
  serve_iff =
      let (accepted, one) = update_status_iff in
      let (code, error) = answered_iff (update_status K w report).1 accepted in (code, error, one)
