-- ===== src/Lifecycle/Whole.antt =====
-- A job's run as a whole: the pod that createPod makes, the driver's process in it, its reports to
-- UpdateStatus, and the reconciliations behind them.
use fms_lm_eval_service.Prelude.{String, true, ◌≡◌, refl, ◌∙◌, Option, none, some, [], ◌∷◌}
use fms_lm_eval_service.Api.Core.{Time, is_zero_time, Error, Result, ok, err, Container}
use fms_lm_eval_service.Api.Job.{LmEvalJob, LmEvalJobStatus, job_key, complete_job_state}
use fms_lm_eval_service.Text.Strings.{IsBlank}
use fms_lm_eval_service.Text.LogFlag.{LogFlag}
use fms_lm_eval_service.Text.ReadBack.{InInt64}
use fms_lm_eval_service.Cluster.Interface.{Kube, IsLawful, World}
use fms_lm_eval_service.Pod.Options.{Reconciler}
use fms_lm_eval_service.Pod.Build.{create_pod}
use fms_lm_eval_service.Reconcile.Base.{finish, set_status}
use fms_lm_eval_service.Reconcile.Handlers.{reconcile}
use fms_lm_eval_service.Reconcile.Complete.{reconcile-wrapped_up}
use fms_lm_eval_service.Reconcile.Settle.{completed, reconcile-completed}
use fms_lm_eval_service.Driver.Connect.{Transport}
use fms_lm_eval_service.Driver.Run.{Host, returned, exec, outcome, dump_logs}
use fms_lm_eval_service.Driver.Report.{served, verdict}
use fms_lm_eval_service.Driver.Main.{Binaries, exited}
use fms_lm_eval_service.Driver.Process.{process}
use fms_lm_eval_service.Driver.CommandLine.{pod_option, container_args, process-stored}

pub verdict-rest :
    (s : LmEvalJobStatus) (r : Result String)
    → ((verdict s r).state ≡ complete_job_state)
      × ((verdict s r).last_schedule_time ≡ s.last_schedule_time)
      × ((verdict s r).complete_time ≡ s.complete_time)
verdict-rest s (ok results) = (refl, refl, refl)
verdict-rest s (err e) = (refl, refl, refl)

module _ (zap : String → Option LogFlag) (r : Reconciler) (job : LmEvalJob) (c : Container)
    (main_container : (create_pod r job).spec.containers ≡ c ∷ [])
    (port : InInt64 r.options.grpc_port) (K : Kube) (L : IsLawful K) (H : Host)
    (B : Binaries H.Files) (T : Transport) (w : World K) (files : H.Files)
    (named : ¬ IsBlank job.meta.name) (placed : ¬ IsBlank job.meta.namespace) (stored : LmEvalJob)
    (there : K.get_job w.server (job_key job) ≡ ok stored) where
  -- What the process leaves of the world, and the job after it, for the error of its program.
  abbrev pub after_process : World K
  after_process = (process zap H B T (served K) (container_args c) w files).0

  abbrev pub decided : Option Error → LmEvalJob
  decided result =
      let (ended, ran) = exec H (pod_option r job) files in
      set_status stored (
        verdict stored.status
          (outcome H (pod_option r job) (dump_logs H (pod_option r job) ended) result))

  -- If the port is in the range of an int, the names of a job are not blank, it is stored under its
  -- key, has a schedule time and no completion time and is not being deleted, and the process of the
  -- only container of its pod is run against the server to the exit code 0, then one reconciliation
  -- whose status update succeeds is enough: the job has the verdict of the program's run and a
  -- completion time, the rest of it is unchanged, and every later reconciliation changes nothing and
  -- returns neither an error nor a retry.
  pub process-settles :
      is_zero_time stored.meta.deletion_timestamp ≡ true
      → {t : Time} → stored.status.last_schedule_time ≡ some t
      → stored.status.complete_time ≡ none
      → (process zap H B T (served K) (container_args c) w files).2 ≡ exited 0
      → (now : Time)
      → ((result : Option Error)
          → (exec H (pod_option r job) files).1 ≡ returned result
          → (K.update_status after_process.server (completed now (decided result))).1 ≡ none)
      → let settled = (reconcile K r now after_process (job_key job)).0 in
        (result : Option Error) × ((exec H (pod_option r job) files).1 ≡ returned result)
        × (K.get_job settled.server (job_key job) ≡ ok (completed now (decided result)))
        × ((again : Time) → reconcile K r again settled (job_key job) ≡ (settled, finish none))
  process-settles z scheduled unset done now written =
      let (result, run, after) =
        process-stored zap r job c main_container port K L H B T w files named placed stored there
          done in
      let (ended, ran) = exec H (pod_option r job) files in
      let (complete, time, open_end) =
        verdict-rest stored.status
          (outcome H (pod_option r job) (dump_logs H (pod_option r job) ended) result) in
      let noted =
        reconcile-completed K r L now after_process (job_key job) (decided result) after z complete
          (time ∙ scheduled) (open_end ∙ unset) (written result run) in
      (
        result,
        run,
        noted,
        λ again.
            reconcile-wrapped_up K r again (reconcile K r now after_process (job_key job)).0
              (job_key job) (completed now (decided result)) noted z complete (time ∙ scheduled)
              refl,
      )
