-- ===== src/Pod/Names.antt =====
-- The volumes of a job's pod and the mounts of its main container (createPod, patch4GrpcTLS and
-- patch4FileSecrets of backend/controller/lmevaljob_controller.go).
use mathlib.Core.List.{map-append}
use fms_lm_eval_service.Prelude.{
  true, ◌≡◌, refl, ap, ◌∙◌, ◌≢◌, ◌↔◌, List, [], ◌∷◌, ◌++◌, map, All, All-append, str_ne,
}
use fms_lm_eval_service.Api.Core.{EnvVar}
use fms_lm_eval_service.Api.Job.{FileSecret, LmEvalJob}
use fms_lm_eval_service.Pod.Options.{
  ServiceOptions, Reconciler, TlsMode, tls_mode_none, tls_mode_tls, tls_mode_mtls,
}
use fms_lm_eval_service.Pod.Volumes.{PodParts, generate_envs, patch_grpc_tls}
use fms_lm_eval_service.Pod.Build.{shared_volume, shared_mount, pod_parts, create_pod}
use fms_lm_eval_service.Pod.SecretVolumes.{
  secret_volumes, secret_mounts, patch_file_secrets_from-eq, Distinct, volume_name, mount_name,
  secret_volumes-Distinct, Distinct-append, secret_mounts-names, has_label_chars, All-append_right,
  secret_volumes-label_chars, apart,
}

-- The volumes and mounts that do not come from the job's file secrets.
pub base_parts : ServiceOptions → TlsMode → PodParts
unfolding patch_grpc_tls
base_parts options mode =
    patch_grpc_tls options
      (record { env_vars = []; volumes = shared_volume ∷ []; volume_mounts = shared_mount ∷ [] })
      mode

module _ (options : ServiceOptions) where
  base_volumes-Distinct :
      (mode : TlsMode) → Distinct (map volume_name (base_parts options mode).volumes)
  unfolding base_parts
  base_volumes-Distinct tls_mode_none = (tt, tt)
  base_volumes-Distinct tls_mode_tls = ((str_ne "shared" "server-cert" refl, tt), (tt, tt))
  base_volumes-Distinct tls_mode_mtls = (
    (str_ne "shared" "client-cert" refl, (str_ne "shared" "server-cert" refl, tt)),
    ((str_ne "client-cert" "server-cert" refl, tt), (tt, tt)),
  )

  base_volumes-apart :
      (mode : TlsMode) (secrets : List FileSecret)
      → All
          (λ s. All (λ t. s ≢ t) (map volume_name (secret_volumes 1 secrets)))
          (map volume_name (base_parts options mode).volumes)
  unfolding base_parts
  base_volumes-apart tls_mode_none secrets = (apart "shared" secrets refl, tt)
  base_volumes-apart tls_mode_tls secrets =
      (apart "shared" secrets refl, (apart "server-cert" secrets refl, tt))
  base_volumes-apart tls_mode_mtls secrets = (
    apart "shared" secrets refl,
    (apart "client-cert" secrets refl, (apart "server-cert" secrets refl, tt)),
  )

  base_mounts-names :
      (mode : TlsMode)
      → map mount_name (base_parts options mode).volume_mounts
        ≡ map volume_name (base_parts options mode).volumes
  unfolding base_parts
  base_mounts-names tls_mode_none = refl
  base_mounts-names tls_mode_tls = refl
  base_mounts-names tls_mode_mtls = refl

  base_volumes-label_chars :
      (mode : TlsMode) → All (λ v. has_label_chars v.name ≡ true) (base_parts options mode).volumes
  unfolding base_parts has_label_chars
  base_volumes-label_chars tls_mode_none = (refl, tt)
  base_volumes-label_chars tls_mode_tls = (refl, (refl, tt))
  base_volumes-label_chars tls_mode_mtls = (refl, (refl, (refl, tt)))

  -- The environment has no part in the volumes and mounts.
  base_parts-envs :
      (mode : TlsMode) (envs : List EnvVar)
      → let parts =
          patch_grpc_tls options
            (record {
              env_vars = envs;
              volumes = shared_volume ∷ [];
              volume_mounts = shared_mount ∷ [];
            })
            mode in
        (parts.volumes ≡ (base_parts options mode).volumes)
        × (parts.volume_mounts ≡ (base_parts options mode).volume_mounts)
  unfolding base_parts
  base_parts-envs tls_mode_none envs = (refl, refl)
  base_parts-envs tls_mode_tls envs = (refl, refl)
  base_parts-envs tls_mode_mtls envs = (refl, refl)

module _ (r : Reconciler) (job : LmEvalJob) where
  pub pod_parts-split :
      ((pod_parts r job).volumes
        ≡ (base_parts r.options r.options.grpc_tls_mode).volumes
          ++ secret_volumes 1 job.spec.file_secrets)
      × ((pod_parts r job).volume_mounts
          ≡ (base_parts r.options r.options.grpc_tls_mode).volume_mounts
            ++ secret_mounts 1 job.spec.file_secrets)
  unfolding pod_parts
  pod_parts-split =
      let patched =
        patch_grpc_tls r.options
          (record {
            env_vars = generate_envs job.spec.env_secrets;
            volumes = shared_volume ∷ [];
            volume_mounts = shared_mount ∷ [];
          })
          r.options.grpc_tls_mode in
      let (vs, ms) =
        base_parts-envs r.options r.options.grpc_tls_mode (generate_envs job.spec.env_secrets) in
      let looped =
        patch_file_secrets_from-eq 1 patched.volumes patched.volume_mounts job.spec.file_secrets in
      (
        ap (λ p. p.0) looped ∙ ap (λ v. v ++ secret_volumes 1 job.spec.file_secrets) vs,
        ap (λ p. p.1) looped ∙ ap (λ m. m ++ secret_mounts 1 job.spec.file_secrets) ms,
      )

  -- The volumes of the pod have pairwise different names, for every TLS mode and every list of file
  -- secrets.
  pub create_pod-Distinct : Distinct (map volume_name (create_pod r job).spec.volumes)
  unfolding create_pod
  create_pod-Distinct =
      rw (pod_parts-split.0, map-append)
        (Distinct-append _ _ (base_volumes-Distinct r.options r.options.grpc_tls_mode)
          (secret_volumes-Distinct 1 job.spec.file_secrets)
          (base_volumes-apart r.options r.options.grpc_tls_mode job.spec.file_secrets))

  -- The main container mounts every volume of the pod, in the pod's order.
  pub create_pod-mounts :
      All
        (λ c. map mount_name c.volume_mounts ≡ map volume_name (create_pod r job).spec.volumes)
        (create_pod r job).spec.containers
  unfolding create_pod
  create_pod-mounts = (
    rw
        (
          pod_parts-split.1,
          pod_parts-split.0,
          map-append,
          base_mounts-names r.options r.options.grpc_tls_mode,
          secret_mounts-names 1 job.spec.file_secrets,
        )
        (rw map-append),
    tt,
  )

  -- A volume of the pod has a name outside the characters of a DNS label, the form that Kubernetes
  -- asks of volume names, exactly when the job has a file secret.
  pub create_pod-label_names :
      All (λ v. has_label_chars v.name ≡ true) (create_pod r job).spec.volumes
      ↔ (job.spec.file_secrets ≡ [])
  unfolding create_pod secret_volumes
  create_pod-label_names = (
    λ h.
        secret_volumes-label_chars job.spec.file_secrets
          (All-append_right _ _ (rw pod_parts-split.0 at h)),
    λ e. rw pod_parts-split.0 (
        All-append (λ v. has_label_chars v.name ≡ true) _ _
          (base_volumes-label_chars r.options r.options.grpc_tls_mode) (rw e tt)),
  )
