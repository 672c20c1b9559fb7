-- ===== src/Grpc/Cases.antt =====
-- Case analysis on what a report does (updateStatus of
-- backend/controller/lmevaljob_controller.go).
use fms_lm_eval_service.Prelude.{◌==◌, ◌||◌, ◌≡◌, inl, inr, Bool-cases}
use fms_lm_eval_service.Text.Strings.{trim_spaces}
use fms_lm_eval_service.Api.Core.{ok, Result-cases}
use fms_lm_eval_service.Api.Job.{LmEvalJob}
use fms_lm_eval_service.Api.Backend.{JobStatus}
use fms_lm_eval_service.Cluster.Interface.{Kube, World, push_status}
use fms_lm_eval_service.Reconcile.Base.{set_status}
use fms_lm_eval_service.Grpc.Status.{merge_report, report_key, update_status, serve_update_status}

module _ {ℓ} (K : Kube) (Q : World K → Type ℓ) (w : World K) (report : JobStatus) where
  pub serve-cases :
      Q w
      → ((job : LmEvalJob)
          → K.get_job w.server (report_key report) ≡ ok job
          → Q (push_status K w (set_status job (merge_report job.status report))).0)
      → Q (serve_update_status K w report).0
  serve-cases unchanged merged =
      unfold serve_update_status in
      elim (Bool-cases
        (trim_spaces report.job_name == "" || trim_spaces report.job_namespace == "")) [
          | inl blank ↦ rw (serve_update_status, update_status, blank) unchanged
          | inr named ↦ elim (Result-cases (K.get_job w.server (report_key report))) [
            | inl (job, h) ↦ rw (serve_update_status, update_status, named, h) (merged job h)
            | inr (e, h) ↦ rw (serve_update_status, update_status, named, h) unchanged
          ]
        ]
