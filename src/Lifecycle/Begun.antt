-- ===== src/Lifecycle/Begun.antt =====
-- A job from its creation to its end: Reconcile (backend/controller/lmevaljob_controller.go) gives it
-- the finalizer and the pod, the driver's process in the pod (cmd/driver/main.go) reports to
-- UpdateStatus, and Reconcile notes the end.
use fms_lm_eval_service.Prelude.{
  String, true, false, ◌≡◌, refl, sym, subst, Option, none, some, [], ◌∷◌,
}
use fms_lm_eval_service.Api.Core.{Time, is_zero_time, Error, ok, NamespacedName, Container, Pod}
use fms_lm_eval_service.Api.Job.{LmEvalJob, job_key, finalizer_name, scheduled_job_state}
use fms_lm_eval_service.Text.Strings.{IsBlank}
use fms_lm_eval_service.Text.LogFlag.{LogFlag}
use fms_lm_eval_service.Text.ReadBack.{InInt64}
use fms_lm_eval_service.Cluster.Interface.{Kube, IsLawful, World}
use fms_lm_eval_service.Pod.Options.{Reconciler}
use fms_lm_eval_service.Pod.Build.{create_pod}
use fms_lm_eval_service.Reconcile.Base.{finish, set_status}
use fms_lm_eval_service.Reconcile.Handlers.{reconcile}
use fms_lm_eval_service.Reconcile.Begin.{as_new, attached, reconcile-begins}
use fms_lm_eval_service.Reconcile.Settle.{completed}
use fms_lm_eval_service.Driver.Connect.{Transport}
use fms_lm_eval_service.Driver.Run.{Host, returned, exec, outcome, dump_logs}
use fms_lm_eval_service.Driver.Report.{served, verdict}
use fms_lm_eval_service.Driver.Main.{Binaries, exited}
use fms_lm_eval_service.Driver.Process.{process}
use fms_lm_eval_service.Driver.CommandLine.{pod_option, container_args}
use fms_lm_eval_service.Lifecycle.Whole.{verdict-rest, process-settles}

module _ (K : Kube) (r : Reconciler) (L : IsLawful K) (first second : Time) (w : World K)
    (k : NamespacedName) (job : LmEvalJob) (h : K.get_job w.server k ≡ ok job)
    (z : is_zero_time job.meta.deletion_timestamp ≡ true)
    (fresh : job.status.last_schedule_time ≡ none)
    (lacks : K.contains_finalizer job.meta.finalizers finalizer_name ≡ false)
    (done : (K.update w.server (attached K job)).1 ≡ none) (after : LmEvalJob)
    (there : K.get_job (reconcile K r first w k).0.server k ≡ ok after)
    (z' : is_zero_time after.meta.deletion_timestamp ≡ true)
    (open_end : after.status.complete_time ≡ none) (made : Pod) where
  -- The world behind the first reconciliation and the second one, and the job in it.
  abbrev one : World K
  one = (reconcile K r first w k).0

  abbrev pub two : World K
  two = (reconcile K r second one k).0

  abbrev pub scheduled : LmEvalJob
  scheduled = set_status after (record (after.status) {
    state = scheduled_job_state;
    pod_name = made.meta.name;
    last_schedule_time = some second;
  })

  module _ (created : (K.create_pod one.server (create_pod r (as_new after))).1 ≡ ok made)
      (written : (K.update_status
          (K.create_pod one.server (create_pod r (as_new after))).0
          scheduled).1
        ≡ none) where
    scheduled_at : K.get_job two.server (job_key (as_new after)) ≡ ok scheduled
    scheduled_at =
        subst (λ j. K.get_job two.server j ≡ ok scheduled)
          (sym (L.get_job_key one.server k after there))
          (reconcile-begins K r L first second w k job h z fresh lacks done after there z' made
            created written).0

    module _ (zap : String → Option LogFlag) (port : InInt64 r.options.grpc_port) (H : Host)
        (B : Binaries H.Files) (T : Transport) (files : H.Files) (named : ¬ IsBlank after.meta.name)
        (placed : ¬ IsBlank after.meta.namespace) (c : Container)
        (main_container : (create_pod r (as_new after)).spec.containers ≡ c ∷ []) where
      -- The world behind the process of the pod, and the job in it, for the error of its program.
      abbrev pub ran : World K
      ran = (process zap H B T (served K) (container_args c) two files).0

      abbrev pub reported : Option Error → LmEvalJob
      reported result =
          let option = pod_option r (as_new after) in
          let (ended, _) = exec H option files in
          set_status scheduled
            (verdict scheduled.status (outcome H option (dump_logs H option ended) result))

      -- If a job without the finalizer has no schedule time and is not being deleted, neither
      -- before nor after its first reconciliation, it has no completion time then, its names are
      -- not blank, the port is in the range of an int, and the controller's writes for it succeed,
      -- then it comes to its end: the first two reconciliations give it the finalizer and a pod;
      -- if the process of the pod's only container is then run against the server to the exit code
      -- 0, a third one leaves the job with the verdict of the program's run, the schedule time of
      -- the second and the completion time of the third; and every later reconciliation changes
      -- nothing and returns neither an error nor a retry.
      pub reconcile-completes :
          (process zap H B T (served K) (container_args c) two files).2 ≡ exited 0
          → (third : Time)
          → ((result : Option Error)
              → (exec H (pod_option r (as_new after)) files).1 ≡ returned result
              → (K.update_status ran.server (completed third (reported result))).1 ≡ none)
          → let settled = (reconcile K r third ran (job_key after)).0 in
            (result : Option Error) × ((exec H (pod_option r (as_new after)) files).1
              ≡ returned result)
            × (K.get_job settled.server (job_key after) ≡ ok (completed third (reported result)))
            × ((reported result).status.last_schedule_time ≡ some second)
            × ((again : Time)
                → reconcile K r again settled (job_key after) ≡ (settled, finish none))
      reconcile-completes exit third noted =
          let (result, run, stored, still) =
            process-settles zap r (as_new after) c main_container port K L H B T two files named
              placed scheduled scheduled_at z' refl open_end exit third noted in
          let option = pod_option r (as_new after) in
          let (complete, time, unset) =
            verdict-rest scheduled.status
              (outcome H option (dump_logs H option (exec H option files).0) result) in
          (result, run, stored, time, still)
