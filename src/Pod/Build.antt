-- ===== src/Pod/Build.antt =====
-- backend/controller/lmevaljob_controller.go: createPod.
use fms_lm_eval_service.Prelude.{ℕ, true, false, none, some, [], ◌∷◌}
use fms_lm_eval_service.Api.Core.{
  OwnerReference, VolumeMount, Volume, SecurityContext, Container, Pod,
}
use fms_lm_eval_service.Api.Job.{LmEvalJob}
use fms_lm_eval_service.Pod.Options.{Reconciler, driver_path, dest_driver_path}
use fms_lm_eval_service.Pod.Command.{generate_args, generate_cmd}
use fms_lm_eval_service.Pod.Volumes.{PodParts, generate_envs, patch_grpc_tls, patch_file_secrets}

abbrev pub run_as_user : ℕ
run_as_user = 1001030000

abbrev pub shared_mount : VolumeMount
shared_mount = record { name = "shared"; mount_path = "/opt/app-root/src/bin"; read_only = false }

abbrev pub shared_volume : Volume
shared_volume = record {
  name = "shared";
  source = record { empty_dir = some (record { medium = "" }); secret = none };
}

-- Both containers run under it.
abbrev pub security_context : SecurityContext
security_context = record {
  allow_privilege_escalation = some false;
  run_as_user = some run_as_user;
  capabilities = some (record { dropped = "ALL" ∷ [] });
}

-- The entry by which `getPod` knows the job's pod again.
abbrev pub owner_reference : LmEvalJob → OwnerReference
owner_reference job = record {
  api_version = job.type_meta.api_version;
  kind = job.type_meta.kind;
  name = job.meta.name;
  controller = some true;
  uid = job.meta.uid;
}

-- The environment, the volumes and the mounts after `generateEnvs`, `patch4GrpcTLS` and
-- `patch4FileSecrets`.
unfoldable pub pod_parts : Reconciler → LmEvalJob → PodParts
unfolding generate_envs patch_grpc_tls patch_file_secrets
pod_parts r job =
    let patched =
      patch_grpc_tls r.options
        (record {
          env_vars = generate_envs job.spec.env_secrets;
          volumes = shared_volume ∷ [];
          volume_mounts = shared_mount ∷ [];
        })
        r.options.grpc_tls_mode in
    let (volumes, mounts) =
      patch_file_secrets patched.volumes patched.volume_mounts job.spec.file_secrets in
    record { env_vars = patched.env_vars; volumes = volumes; volume_mounts = mounts }

abbrev pub driver_container : Reconciler → Container
driver_container r = record {
  name = "driver";
  image = r.options.driver_image;
  image_pull_policy = r.options.image_pull_policy;
  command = driver_path ∷ "--copy" ∷ dest_driver_path ∷ [];
  args = [];
  env = [];
  security_context = some security_context;
  volume_mounts = shared_mount ∷ [];
}

abbrev main_container : Reconciler → LmEvalJob → PodParts → Container
main_container r job parts = record {
  name = "main";
  image = r.options.pod_image;
  image_pull_policy = r.options.image_pull_policy;
  command = generate_cmd r job;
  args = generate_args job;
  env = parts.env_vars;
  security_context = some security_context;
  volume_mounts = parts.volume_mounts;
}

unfoldable pub create_pod : Reconciler → LmEvalJob → Pod
unfolding pod_parts generate_cmd generate_args
create_pod r job = record {
  type_meta = record { kind = "Pod"; api_version = "v1" };
  meta = record {
    name = job.meta.name;
    namespace = job.meta.namespace;
    uid = "";
    labels = ("app.kubernetes.io/name", "fms-lm-eval-service") ∷ [];
    finalizers = [];
    owner_references = owner_reference job ∷ [];
    deletion_timestamp = none;
  };
  spec = record {
    init_containers = driver_container r ∷ [];
    containers = main_container r job (pod_parts r job) ∷ [];
    security_context =
        some (record { run_as_non_root = some true; seccomp_profile = some "RuntimeDefault" });
    volumes = (pod_parts r job).volumes;
    restart_policy = "Never";
  };
  status = record { container_statuses = none };
}
