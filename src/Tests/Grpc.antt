-- ===== src/Tests/Grpc.antt =====
-- The theorems about the driver's reports at concrete reports.
use fms_lm_eval_service.Prelude.{◌≡◌, refl, ◌↔◌, inl, none, some, arith}
use fms_lm_eval_service.Api.Core.{Error, errorf, ok, err}
use fms_lm_eval_service.Api.Backend.{JobStatus, response_ok, response_error}
use fms_lm_eval_service.Cluster.Memory.{memory, memory-IsLawful, not_found}
use fms_lm_eval_service.Reconcile.Base.{set_status}
use fms_lm_eval_service.Grpc.Status.{serve_update_status}
use fms_lm_eval_service.Grpc.Accept.{IsAccepted, WritesOne, serve_iff}
use fms_lm_eval_service.Grpc.Laws.{serve-blank, serve-code, serve-stored, serve-absent}
use fms_lm_eval_service.Tests.Data.{job, key, job_in, cluster, world}

abbrev report : JobStatus
report = record {
  job_name = "test";
  job_namespace = "default";
  state = "Complete";
  reason = "Succeeded";
  status_message = "";
  results = some "{}";
}

serve-blank_run :
    serve_update_status memory
      (world (cluster job (err not_found) none))
      (record report { job_name = "  " })
    ≡ (
      world (cluster job (err not_found) none),
      record { code = response_error; message = "JobName or JobNameSpace is empty" },
      some (errorf "JobName or JobNameSpace is empty"),
    )
serve-blank_run =
    serve-blank memory (world (cluster job (err not_found) none))
      (record report { job_name = "  " }) (inl (refl, (refl, tt)))

serve-code_run :
    let answer = serve_update_status memory (world (cluster job (err not_found) none)) report in
    (answer.1.code ≡ response_error)
    ↔ ((e : Error) × (answer.2 ≡ some e) × (answer.1.message ≡ e.message))
serve-code_run = serve-code memory (world (cluster job (err not_found) none)) report

serve-stored_example :
    let w = world (cluster (job_in "Running") (err not_found) none) in
    (memory.get_job (serve_update_status memory w report).0.server key
      ≡ ok (
          set_status (job_in "Running") (record (job_in "Running").status {
            state = "Complete";
            reason = "Succeeded";
            message = "";
            results = "{}";
          })))
    × ((serve_update_status memory w report).1.code ≡ response_ok)
    × ((serve_update_status memory w report).2 ≡ none)
serve-stored_example =
    serve-stored memory memory-IsLawful (world (cluster (job_in "Running") (err not_found) none))
      report (λ b. omega (arith, b.0)) (λ b. omega (arith, b.0)) (job_in "Running") refl refl

serve-absent_run :
    let w = world (cluster job (err not_found) none) in
    serve_update_status memory w (record report { job_name = "other" })
    ≡ (w, record { code = response_error; message = "not found" }, some not_found)
serve-absent_run =
    serve-absent memory (world (cluster job (err not_found) none))
      (record report { job_name = "other" }) (λ b. omega (arith, b.0)) (λ b. omega (arith, b.0))
      not_found refl

serve_iff_example :
    let w = world (cluster (job_in "Running") (err not_found) none) in
    let answer = serve_update_status memory w report in
    (answer.1.code ≡ response_ok ↔ IsAccepted memory w report)
    × (answer.2 ≡ none ↔ IsAccepted memory w report)
    × WritesOne memory w report answer.0
serve_iff_example =
    serve_iff memory (world (cluster (job_in "Running") (err not_found) none)) report
