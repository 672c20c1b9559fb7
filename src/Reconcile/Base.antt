-- ===== src/Reconcile/Base.antt =====
-- backend/controller/lmevaljob_controller.go: what the handlers of Reconcile share: their
-- results, and the pod that belongs to a job. What is only written to the log is left out.
use fms_lm_eval_service.Prelude.{
  String, ◌==◌, ◌≡◌, arith, Bool, true, false, ◌&&◌, ◌||◌, Option, none, some, List, [], ◌∷◌,
  if◌then◌else◌,
}
use fms_lm_eval_service.Prelude.Int.{pos, is_zero}
use fms_lm_eval_service.Api.Core.{
  Time, Error, errorf, Result, ok, err, OwnerReference, ContainerStatus, ContainerStateTerminated,
  Pod, Event, ReconcileResult,
}
use fms_lm_eval_service.Api.Job.{
  LmEvalJob, LmEvalJobStatus, job_key, complete_job_state, new_job_state, scheduled_job_state,
  cancelled_reason, succeed_reason, failed_reason,
}
use fms_lm_eval_service.Cluster.Interface.{Kube, World}
use fms_lm_eval_service.Pod.Options.{Reconciler}

-- What a reconciliation returns: `(ctrl.Result, error)`.
abbrev pub Outcome : Type 0
Outcome = ReconcileResult × Option Error

-- `ctrl.Result{}` with an error or nil.
abbrev pub finish : Option Error → Outcome
finish e = (record { requeue = false; requeue_after = pos 0 }, e)

-- `ctrl.Result{Requeue: true, RequeueAfter: r.options.PodCheckingInterval}`
abbrev pub check_later : Reconciler → Option Error → Outcome
check_later r e = (record { requeue = true; requeue_after = r.options.pod_checking_interval }, e)

abbrev pub event : String → String → String → Event
event event_type reason message = record {
  event_type = event_type;
  reason = reason;
  message = message;
}

-- The job with another status.
abbrev pub set_status : LmEvalJob → LmEvalJobStatus → LmEvalJob
set_status job status = record job { status = status }

abbrev pub set_finalizers : LmEvalJob → List String → LmEvalJob
set_finalizers job finalizers = record job { meta = record (job.meta) { finalizers = finalizers } }

-- A job that was never scheduled is treated as new.
unfoldable pub treat_as_new : LmEvalJob → LmEvalJob
treat_as_new job = elim job.status.last_schedule_time [
  | none ↦ set_status job (record (job.status) { state = new_job_state })
  | some _ ↦ job
]

pub treat_as_new-unscheduled :
    (job : LmEvalJob)
    → job.status.last_schedule_time ≡ none
    → treat_as_new job ≡ set_status job (record (job.status) { state = new_job_state })
unfolding treat_as_new
treat_as_new-unscheduled job e = ground arith

pub treat_as_new-scheduled :
    (job : LmEvalJob) {t : Time} → job.status.last_schedule_time ≡ some t → treat_as_new job ≡ job
unfolding treat_as_new
treat_as_new-scheduled job e = ground arith

-- The status of a job that failed with `e`.
abbrev pub failed_status : LmEvalJobStatus → Error → LmEvalJobStatus
failed_status status e = record status {
  state = complete_job_state;
  reason = failed_reason;
  message = e.message;
}

-- The status of a job for which `pod` was created.
abbrev pub scheduled_status : Time → LmEvalJobStatus → Pod → LmEvalJobStatus
scheduled_status now status pod = record status {
  state = scheduled_job_state;
  pod_name = pod.meta.name;
  last_schedule_time = some now;
}

-- The status of a job whose pod was deleted for it.
abbrev pub cancelled_status : LmEvalJobStatus → LmEvalJobStatus
cancelled_status status = record status { state = complete_job_state; reason = cancelled_reason }

-- The loop of `getPod` over the pod's owner references.
unfoldable pub owned_by : LmEvalJob → List OwnerReference → Bool
owned_by job [] = false
owned_by job (ref ∷ refs) =
    (ref.api_version == job.type_meta.api_version
      && ref.kind == job.type_meta.kind
      && ref.name == job.meta.name)
    || owned_by job refs

-- The status of the first container named "main": `slices.IndexFunc` and the element at its index.
unfoldable pub main_status : List ContainerStatus → Option ContainerStatus
main_status [] = none
main_status (s ∷ statuses) = if s.name == "main" then some s else main_status statuses

-- How the pod's main container ended; `none` where `checkScheduledPod` goes on waiting.
unfoldable pub main_terminated : Pod → Option ContainerStateTerminated
unfolding main_status
main_terminated pod = elim pod.status.container_statuses [
  | none ↦ none
  | some statuses ↦ elim (main_status statuses) [ none ↦ none | some s ↦ s.state.terminated ]
]

-- The status that `checkScheduledPod` gives to a job whose main container has ended.
unfoldable pub terminated_status : LmEvalJobStatus → ContainerStateTerminated → LmEvalJobStatus
terminated_status status t =
    if is_zero t.exit_code
    then record status { state = complete_job_state; reason = succeed_reason }
    else record status { state = complete_job_state; reason = failed_reason; message = t.reason }

-- The pod that `deleteJobPod` names to the API.
abbrev pub pod_to_delete : LmEvalJob → Pod
pod_to_delete job = record {
  type_meta = record { kind = "Pod"; api_version = "v1" };
  meta = record {
    name = job.status.pod_name;
    namespace = job.meta.namespace;
    uid = "";
    labels = [];
    finalizers = [];
    owner_references =
        record {
          api_version = job.type_meta.api_version;
          kind = job.type_meta.kind;
          name = job.meta.name;
          controller = none;
          uid = "";
        }
        ∷ [];
    deletion_timestamp = none;
  };
  spec = record {
    init_containers = [];
    containers = [];
    security_context = none;
    volumes = [];
    restart_policy = "";
  };
  status = record { container_statuses = none };
}

module _ (K : Kube) where
  unfoldable pub get_pod : World K → LmEvalJob → Result Pod
  unfolding owned_by
  get_pod w job = elim (K.get_pod w.server (job_key job)) [
    | err e ↦ err e
    | ok pod ↦
        if owned_by job pod.meta.owner_references
        then ok pod
        else err (errorf "pod doesn't have proper entry in the OwnerReferences")
  ]

  unfoldable pub delete_job_pod : World K → LmEvalJob → World K × Option Error
  delete_job_pod w job =
      let (s, e) = K.delete_pod w.server (pod_to_delete job) in (record w { server = s }, e)
