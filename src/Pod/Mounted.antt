-- ===== src/Pod/Mounted.antt =====
-- The file secrets of a job in its pod (createPod and patch4FileSecrets of
-- backend/controller/lmevaljob_controller.go).
use fms_lm_eval_service.Prelude.{
  ℕ, suc, String, ◌==◌, eq_iff, eq_refl, true, ◌≡◌, refl, subst, ◌≢◌, inl, inr, Option, none, some,
  List, [], ◌∷◌, map, All, Any, Any-found, end_members, if◌then◌else◌, Bool-cases,
}
use fms_lm_eval_service.Api.Core.{Volume, VolumeMount}
use fms_lm_eval_service.Api.Job.{FileSecret, LmEvalJob}
use fms_lm_eval_service.Pod.Options.{Reconciler}
use fms_lm_eval_service.Pod.Volumes.{secret_volume, secret_mount}
use fms_lm_eval_service.Pod.Build.{pod_parts, create_pod}
use fms_lm_eval_service.Pod.SecretVolumes.{secret_volumes, secret_mounts, Distinct, volume_name}
use fms_lm_eval_service.Pod.Names.{base_parts, pod_parts-split, create_pod-Distinct}

-- The volume of a name.
abbrev pub volume_named : String → List Volume → Option Volume
volume_named name [] = none
volume_named name (v ∷ vs) =
    let rest = volume_named name vs in if v.name == name then some v else rest

-- One of the mounts puts the secret at its path, from the volume that its name stands for.
abbrev pub IsMounted : List Volume → List VolumeMount → FileSecret → Type 0
IsMounted volumes mounts s =
    Any
      (λ m.
        (m.mount_path ≡ s.mount_path)
        × (m.read_only ≡ true)
        × (volume_named m.name volumes
            ≡ some (record {
              name = m.name;
              source = record { empty_dir = none; secret = some s.secret_ref };
            })))
      mounts

other_name :
    (name : String) (x : Volume) (vs : List Volume)
    → All (λ t. name ≢ t) (map volume_name vs)
    → Any (λ v. v ≡ x) vs
    → name ≢ x.name
other_name name x [] h k = absurd k
other_name name x (v ∷ vs) h (inl e) = subst (λ u. name ≢ u.name) e h.0
other_name name x (v ∷ vs) h (inr k) = other_name name x vs h.1 k

volume_named-Distinct :
    (x : Volume) (vs : List Volume)
    → Distinct (map volume_name vs)
    → Any (λ v. v ≡ x) vs
    → volume_named x.name vs ≡ some x
volume_named-Distinct x [] d k = absurd k
volume_named-Distinct x (v ∷ vs) d (inl e) =
    subst (λ u. volume_named u.name (v ∷ vs) ≡ some u) e (rw (eq_refl v.name) refl)
volume_named-Distinct x (v ∷ vs) d (inr k) = elim (Bool-cases (v.name == x.name)) [
  | inl e ↦ absurd (other_name v.name x vs d.0 k ((eq_iff v.name x.name).0 e))
  | inr ne ↦ rw ne (volume_named-Distinct x vs d.1 k)
]

secrets-IsMounted :
    (volumes : List Volume) (mounts : List VolumeMount)
    → Distinct (map volume_name volumes)
    → (counter : ℕ) (secrets : List FileSecret)
    → All (λ x. Any (λ v. v ≡ x) volumes) (secret_volumes counter secrets)
    → All (λ x. Any (λ m. m ≡ x) mounts) (secret_mounts counter secrets)
    → All (IsMounted volumes mounts) secrets
unfolding secret_volumes secret_mounts
secrets-IsMounted volumes mounts d counter [] h k = tt
secrets-IsMounted volumes mounts d counter (s ∷ secrets) h k = (
  Any-found _ (secret_mount counter s) mounts k.0
      (refl, refl, volume_named-Distinct (secret_volume counter s) volumes d h.0),
  secrets-IsMounted volumes mounts d (suc counter) secrets h.1 k.1,
)

-- The volumes of the pod have pairwise different names, and the main container mounts every file
-- secret of the job, for reading, at the path that the job asks for: from the volume of the
-- mount's name, which holds that secret. This holds for every TLS mode and every list of file
-- secrets.
pub create_pod-IsMounted :
    (r : Reconciler) (job : LmEvalJob)
    → Distinct (map volume_name (create_pod r job).spec.volumes)
      × All
          (λ c.
            All (IsMounted (create_pod r job).spec.volumes c.volume_mounts) job.spec.file_secrets)
          (create_pod r job).spec.containers
unfolding create_pod
create_pod-IsMounted r job =
    let (volumes, mounts) = pod_parts-split r job in
    let base = base_parts r.options r.options.grpc_tls_mode in
    let d = create_pod-Distinct r job in
    (
      d,
      (
        secrets-IsMounted (pod_parts r job).volumes (pod_parts r job).volume_mounts d 1
            job.spec.file_secrets
            (rw volumes (end_members base.volumes (secret_volumes 1 job.spec.file_secrets)))
            (rw mounts (end_members base.volume_mounts (secret_mounts 1 job.spec.file_secrets))),
        tt,
      ),
    )
