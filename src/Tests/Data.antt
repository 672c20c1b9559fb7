-- ===== src/Tests/Data.antt =====
-- A job as in backend/controller/lmevaljob_controller_test.go, in a cluster in memory.
use fms_lm_eval_service.Prelude.{String, Option, none, some, List, [], ◌∷◌}
use fms_lm_eval_service.Prelude.Int.{pos}
use fms_lm_eval_service.Api.Core.{
  Error, Result, ok, err, NamespacedName, Pod, OwnerReference, ContainerStatus,
  ContainerStateTerminated,
}
use fms_lm_eval_service.Api.Job.{LmEvalJob, LmEvalJobStatus, job_key, finalizer_name}
use fms_lm_eval_service.Cluster.Interface.{World}
use fms_lm_eval_service.Cluster.Memory.{Memory, memory, put, not_found}
use fms_lm_eval_service.Pod.Options.{Reconciler, default_options, tls_mode_mtls}
use fms_lm_eval_service.Pod.Build.{owner_reference}

abbrev pub reconciler : Reconciler
reconciler = record {
  config_map = "lm-eval-service";
  namespace = "test";
  options = record default_options { grpc_tls_mode = tls_mode_mtls };
}

abbrev pub new_status : LmEvalJobStatus
new_status = record {
  pod_name = "";
  state = "";
  reason = "";
  message = "";
  last_schedule_time = none;
  complete_time = none;
  results = "";
}

abbrev pub job : LmEvalJob
job = record {
  type_meta = record { kind = "LMEvalJob"; api_version = "v1beta1" };
  meta = record {
    name = "test";
    namespace = "default";
    uid = "for-testing";
    labels = [];
    finalizers = finalizer_name ∷ [];
    owner_references = [];
    deletion_timestamp = none;
  };
  spec = record {
    model = "test";
    model_args = some (record { name = "arg1"; value = "value1" } ∷ []);
    tasks = "task1" ∷ "task2" ∷ [];
    num_few_shot = none;
    limit = "";
    gen_args = none;
    log_samples = none;
    env_secrets = record { env = "my_env"; secret_ref = none; secret = some "hello" } ∷ [];
    file_secrets =
        record {
          secret_ref = record {
            secret_name = "my-secret";
            items = [];
            default_mode = none;
            optional = none;
          };
          mount_path = "/the_path";
        }
        ∷ [];
  };
  status = new_status;
}

abbrev pub key : NamespacedName
key = job_key job

-- The job with a schedule time and a state.
abbrev pub job_in : String → LmEvalJob
job_in state = record job {
  status = record new_status { pod_name = "test"; state = state; last_schedule_time = some 5 };
}

abbrev pub pod_of : Option (List ContainerStatus) → List OwnerReference → Pod
pod_of statuses owners = record {
  type_meta = record { kind = "Pod"; api_version = "v1" };
  meta = record {
    name = "test";
    namespace = "default";
    uid = "";
    labels = [];
    finalizers = [];
    owner_references = owners;
    deletion_timestamp = none;
  };
  spec = record {
    init_containers = [];
    containers = [];
    security_context = none;
    volumes = [];
    restart_policy = "Never";
  };
  status = record { container_statuses = statuses };
}

abbrev pub end_with_1 : ContainerStateTerminated
end_with_1 = record { exit_code = pos 1; reason = "Error" }

abbrev pub driver_status : ContainerStatus
driver_status = record { name = "driver"; state = record { terminated = none } }

abbrev pub main_status_1 : ContainerStatus
main_status_1 = record { name = "main"; state = record { terminated = some end_with_1 } }

abbrev pub ended_pod : Pod
ended_pod = pod_of (some (driver_status ∷ main_status_1 ∷ [])) (owner_reference job ∷ [])

abbrev pub starting_pod : Pod
starting_pod = pod_of none (owner_reference job ∷ [])

abbrev pub quota : Error
quota = record { message = "exceeded quota"; status_reason = "Forbidden" }

-- A cluster with one job, the entry for its pod, and a refusal of new pods or none.
abbrev pub cluster : LmEvalJob → Result Pod → Option Error → Memory
cluster j pod refusal = record {
  jobs = put (job_key j) (ok j) (λ k. err not_found);
  pods = put (job_key j) pod (λ k. err not_found);
  refusal = refusal;
}

abbrev pub world : Memory → World memory
world s = record { server = s; events = [] }
