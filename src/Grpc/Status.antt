-- ===== src/Grpc/Status.antt =====
-- updateStatus of backend/controller/lmevaljob_controller.go, and the service's UpdateStatus of
-- grpc_server.go, which calls it.
use fms_lm_eval_service.Prelude.{String, ◌==◌, ◌||◌, Option, none, some, if◌then◌else◌}
use fms_lm_eval_service.Text.Strings.{trim_spaces}
use fms_lm_eval_service.Api.Core.{Error, errorf, ok, err, NamespacedName}
use fms_lm_eval_service.Api.Job.{LmEvalJobStatus}
use fms_lm_eval_service.Api.Backend.{JobStatus, Response, response_ok, response_error}
use fms_lm_eval_service.Cluster.Interface.{Kube, World, push_status}

abbrev pub message_or : String → String → String
message_or old new = if new == "" then old else new

abbrev pub results_or : String → Option String → String
results_or old none = old
results_or old (some results) = results

-- The job's status after the driver's report.
unfoldable pub merge_report : LmEvalJobStatus → JobStatus → LmEvalJobStatus
merge_report status report = record status {
  state = report.state;
  reason = report.reason;
  message = message_or status.message report.status_message;
  results = results_or status.results report.results;
}

abbrev pub report_key : JobStatus → NamespacedName
report_key report = record { namespace = report.job_namespace; name = report.job_name }

abbrev pub response : Option Error → Response
response none = record { code = response_ok; message = "updated the job status successfully" }
response (some e) = record { code = response_error; message = e.message }

module _ (K : Kube) where
  unfoldable pub update_status : World K → JobStatus → World K × Option Error
  update_status w report =
      if trim_spaces report.job_name == "" || trim_spaces report.job_namespace == ""
      then (w, some (errorf "JobName or JobNameSpace is empty"))
      else elim (K.get_job w.server (report_key report)) [
        | err e ↦ (w, some e)
        | ok job ↦ push_status K w (record job { status = merge_report job.status report })
      ]

  -- `UpdateStatus` of the server: the response and the error.
  unfoldable pub serve_update_status : World K → JobStatus → World K × Response × Option Error
  unfolding update_status
  serve_update_status w report = let (w', e) = update_status w report in (w', response e, e)
