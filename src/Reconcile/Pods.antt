-- ===== src/Reconcile/Pods.antt =====
-- The pod of a job and how it ended: getPod and the tests of checkScheduledPod
-- (backend/controller/lmevaljob_controller.go).
use fms_lm_eval_service.Prelude.{
  ◌==◌, eq_iff, true, false, ◌≡◌, ap, inl, inr, Bool-cases, false≢true, ◌≢◌, ◌↔◌, ◌∙◌, sym, some,
  List, [], ◌∷◌, ◌++◌, arith, All, Any,
}
use fms_lm_eval_service.Prelude.Int.{ℤ, pos, is_zero}
use fms_lm_eval_service.Api.Core.{
  Error, errorf, ok, err, OwnerReference, ContainerStatus, ContainerStateTerminated, Pod,
}
use fms_lm_eval_service.Api.Job.{
  LmEvalJob, LmEvalJobStatus, job_key, complete_job_state, succeed_reason, failed_reason,
}
use fms_lm_eval_service.Cluster.Interface.{Kube, World}
use fms_lm_eval_service.Reconcile.Base.{
  owned_by, main_status, main_terminated, terminated_status, get_pod,
}

-- The reference names the job: same API version, kind and name.
pub record IsOwner (job : LmEvalJob) (ref : OwnerReference) : Type 0 where
  pub same_version : ref.api_version ≡ job.type_meta.api_version
  pub same_kind : ref.kind ≡ job.type_meta.kind
  pub same_name : ref.name ≡ job.meta.name

-- The pod has a container named "main", the first of that name has ended, and `t` is how.
pub record HasEnded (pod : Pod) (t : ContainerStateTerminated) : Type 0 where
  pub before : List ContainerStatus
  pub main : ContainerStatus
  pub after : List ContainerStatus
  pub statuses : pod.status.container_statuses ≡ some (before ++ main ∷ after)
  pub others : All (λ s. s.name ≢ "main") before
  pub is_main : main.name ≡ "main"
  pub ended : main.state.terminated ≡ some t

main_status-append :
    (before after : List ContainerStatus) (main : ContainerStatus)
    → All (λ s. s.name ≢ "main") before
    → main.name ≡ "main"
    → main_status (before ++ main ∷ after) ≡ some main
unfolding main_status
main_status-append [] after main _ e = ground (arith, eq_iff main.name "main")
main_status-append (s ∷ before) after main (n, ns) e =
    ground (arith, eq_iff s.name "main", main_status-append before after main ns e)

main_status-nil : (main : ContainerStatus) → ¬ (main_status [] ≡ some main)
unfolding main_status
main_status-nil main e = cc

module _ (s : ContainerStatus) (statuses : List ContainerStatus) (main : ContainerStatus) where
  main_status-hit : (s.name == "main") ≡ true → main_status (s ∷ statuses) ≡ some main → s ≡ main
  main_status-hit named e = unfold main_status in ground arith

  main_status-miss :
      (s.name == "main") ≡ false
      → main_status (s ∷ statuses) ≡ some main
      → main_status statuses ≡ some main
  main_status-miss other e = unfold main_status in ground arith

-- What `main_status` finds is the first container of the name.
main_status-some :
    (statuses : List ContainerStatus) (main : ContainerStatus)
    → main_status statuses ≡ some main
    → (before : List ContainerStatus) × (after : List ContainerStatus) × (statuses
        ≡ before ++ main ∷ after)
      × All (λ s. s.name ≢ "main") before
      × (main.name ≡ "main")
main_status-some [] main e = absurd (main_status-nil main e)
main_status-some (s ∷ statuses) main e = elim (Bool-cases (s.name == "main")) [
  | inl named ↦
      let same = main_status-hit s statuses main named e in
      ([], statuses, ap (λ m. m ∷ statuses) same, tt, rw (← same) ((eq_iff s.name "main").0 named))
  | inr other ↦
      let (before, after, split, others, is_main) =
        main_status-some statuses main (main_status-miss s statuses main other e) in
      (
        s ∷ before,
        after,
        ap (λ l. s ∷ l) split,
        (λ is. false≢true (sym other ∙ (eq_iff s.name "main").1 is), others),
        is_main,
      )
]

main_terminated-some :
    (pod : Pod) (t : ContainerStateTerminated)
    → main_terminated pod ≡ some t
    → (statuses : List ContainerStatus) × (main : ContainerStatus) × (pod.status.container_statuses
        ≡ some statuses)
      × (main_status statuses ≡ some main)
      × (main.state.terminated ≡ some t)
main_terminated-some pod t e = unfold main_terminated in ground arith

pub HasEnded-main_terminated :
    (pod : Pod) (t : ContainerStateTerminated) → main_terminated pod ≡ some t → HasEnded pod t
HasEnded-main_terminated pod t e =
    let (statuses, main, known, first, ended) = main_terminated-some pod t e in
    let (before, after, split, others, is_main) = main_status-some statuses main first in
    record {
      before = before;
      main = main;
      after = after;
      statuses = known ∙ ap some split;
      others = others;
      is_main = is_main;
      ended = ended;
    }

pub main_terminated-HasEnded :
    (pod : Pod) (t : ContainerStateTerminated) → HasEnded pod t → main_terminated pod ≡ some t
main_terminated-HasEnded pod t h =
    unfold main_terminated in
    rw (main_terminated, h.statuses)
      (rw (main_status-append h.before h.after h.main h.others h.is_main) h.ended)

-- What a job's status says after its pod's main container ended as `t` says.
pub record Reports (status : LmEvalJobStatus) (t : ContainerStateTerminated) : Type 0 where
  pub complete : status.state ≡ complete_job_state
  pub succeeded : (status.reason ≡ succeed_reason) ↔ (t.exit_code ≡ pos 0)
  pub failed : t.exit_code ≢ pos 0 → (status.reason ≡ failed_reason) × (status.message ≡ t.reason)

pub is_zero_iff : (n : ℤ) → (is_zero n ≡ true) ↔ (n ≡ pos 0)
is_zero_iff n = ground arith

pub terminated_status-Reports :
    (status : LmEvalJobStatus) (t : ContainerStateTerminated)
    → Reports (terminated_status status t) t
unfolding terminated_status
terminated_status-Reports status t =
    ground (arith, is_zero_iff t.exit_code, eq_iff failed_reason succeed_reason)

owned_by_iff :
    (job : LmEvalJob) (refs : List OwnerReference)
    → (owned_by job refs ≡ true) ↔ Any (IsOwner job) refs
unfolding owned_by
owned_by_iff job [] = (λ e. cc, λ e. absurd e)
owned_by_iff job (ref ∷ refs) = ground (
  arith,
  eq_iff ref.api_version job.type_meta.api_version,
  eq_iff ref.kind job.type_meta.kind,
  eq_iff ref.name job.meta.name,
  owned_by_iff job refs,
)

not-owned :
    (job : LmEvalJob) (refs : List OwnerReference)
    → ¬ Any (IsOwner job) refs
    → owned_by job refs ≡ false
not-owned job refs strange = elim (Bool-cases (owned_by job refs)) [
  | inl own ↦ absurd (strange ((owned_by_iff job refs).0 own))
  | inr other ↦ other
]

module _ (K : Kube) (w : World K) (job : LmEvalJob) where
  pub get_pod-owned :
      {pod : Pod}
      → K.get_pod w.server (job_key job) ≡ ok pod
      → Any (IsOwner job) pod.meta.owner_references
      → get_pod K w job ≡ ok pod
  get_pod-owned {pod} h own =
      unfold get_pod in rw (get_pod, h, (owned_by_iff job pod.meta.owner_references).1 own)

  get_pod-stranger :
      {pod : Pod}
      → K.get_pod w.server (job_key job) ≡ ok pod
      → ¬ Any (IsOwner job) pod.meta.owner_references
      → get_pod K w job ≡ err (errorf "pod doesn't have proper entry in the OwnerReferences")
  get_pod-stranger {pod} h strange =
      unfold get_pod in rw (get_pod, h, not-owned job pod.meta.owner_references strange)

-- The API gives `e` for the job's pod, or a pod that does not name the job as an owner.
pub data Lost (K : Kube) (w : World K) (job : LmEvalJob) (e : Error) : Type 0 where
  unread : K.get_pod w.server (job_key job) ≡ err e → Lost K w job e
  stranger :
      (pod : Pod)
      → K.get_pod w.server (job_key job) ≡ ok pod
      → ¬ Any (IsOwner job) pod.meta.owner_references
      → e ≡ errorf "pod doesn't have proper entry in the OwnerReferences"
      → Lost K w job e

pub get_pod-Lost :
    (K : Kube) (w : World K) (job : LmEvalJob) {e : Error}
    → Lost K w job e
    → get_pod K w job ≡ err e
get_pod-Lost K w job (unread h) = unfold get_pod in rw (get_pod, h)
get_pod-Lost K w job (stranger pod h strange same) =
    get_pod-stranger K w job h strange ∙ ap err (sym same)
