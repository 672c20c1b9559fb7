-- ===== src/Cluster/Memory.antt =====
-- A cluster kept in memory, which meets the assumptions of the interface. It can be told to refuse
-- new pods, as an admission check or a quota does.
use fms_lm_eval_service.Prelude.{
  String, ◌==◌, eq_iff, eq_refl, Bool, true, false, ◌&&◌, ◌||◌, ◌≡◌, refl, ◌↔◌, ◌⊎◌, Option, none,
  some, List, [], ◌∷◌, ◌++◌, arith, if◌then◌else◌,
}
use fms_lm_eval_service.Api.Core.{Error, errorf, Result, ok, err, NamespacedName, Pod, is_zero_time}
use fms_lm_eval_service.Api.Job.{LmEvalJob, job_key}
use fms_lm_eval_service.Cluster.Interface.{Kube, IsLawful, pod_key, with_status}

abbrev key_eq : NamespacedName → NamespacedName → Bool
key_eq a b = a.namespace == b.namespace && a.name == b.name

key_eq_iff : (a b : NamespacedName) → (key_eq a b ≡ true) ↔ (a ≡ b)
key_eq_iff a b = ground (arith, eq_iff a.namespace b.namespace, eq_iff a.name b.name)

abbrev pub not_found : Error
not_found = record { message = "not found"; status_reason = "NotFound" }

pub record Memory : Type 0 where
  pub jobs : NamespacedName → Result LmEvalJob
  pub pods : NamespacedName → Result Pod
  pub refusal : Option Error

-- A table with another entry at a key.
abbrev pub put {ℓ} :
    {A : Type ℓ}
    → NamespacedName
    → Result A
    → (NamespacedName → Result A)
    → NamespacedName
    → Result A
put k v table j = if key_eq j k then v else table j

-- The entry at a key, if it is a job of that key.
abbrev fetch : Memory → NamespacedName → Result LmEvalJob
fetch s k = elim (s.jobs k) [
  | err e ↦ err e
  | ok job ↦ if key_eq (job_key job) k then ok job else err not_found
]

abbrev store_status : Memory → LmEvalJob → Memory × Option Error
store_status s job = elim (fetch s (job_key job)) [
  | err e ↦ (s, some e)
  | ok stored ↦ (
    record s { jobs = put (job_key job) (ok (record stored { status = job.status })) s.jobs },
    none,
  )
]

-- An object that is being deleted goes with its last finalizer.
abbrev stored_after : LmEvalJob → LmEvalJob → Result LmEvalJob
stored_after stored job =
    if is_gone job.meta.finalizers
      && (if is_zero_time stored.meta.deletion_timestamp then false else true)
    then err not_found
    else ok (record stored { meta = job.meta; spec = job.spec })
  where
    is_gone : List String → Bool
    is_gone [] = true
    is_gone (_ ∷ _) = false

abbrev store_job : Memory → LmEvalJob → Memory × Option Error
store_job s job = elim (fetch s (job_key job)) [
  | err e ↦ (s, some e)
  | ok stored ↦ (record s { jobs = put (job_key job) (stored_after stored job) s.jobs }, none)
]

abbrev store_pod : Memory → Pod → Memory × Result Pod
store_pod s pod = elim s.refusal [
  | some e ↦ (s, err e)
  | none ↦ elim (s.pods (pod_key pod)) [
    | ok _ ↦ (s, err (errorf "already exists"))
    | err _ ↦ (record s { pods = put (pod_key pod) (ok pod) s.pods }, ok pod)
  ]
]

abbrev drop_pod : Memory → Pod → Memory × Option Error
drop_pod s pod = elim (s.pods (pod_key pod)) [
  | err e ↦ (s, some e)
  | ok _ ↦ (record s { pods = put (pod_key pod) (err not_found) s.pods }, none)
]

abbrev contains : List String → String → Bool
contains [] name = false
contains (n ∷ names) name = n == name || contains names name

abbrev remove : List String → String → List String
remove [] name = []
remove (n ∷ names) name = let rest = remove names name in if n == name then rest else n ∷ rest

abbrev pub memory : Kube
memory = record {
  Server = Memory;
  get_job = fetch;
  get_pod = λ s k. s.pods k;
  get_secret = λ s k. some not_found;
  update = store_job;
  update_status = store_status;
  create_pod = store_pod;
  delete_pod = drop_pod;
  ignore_not_found = λ e. if e.status_reason == "NotFound" then none else some e;
  contains_finalizer = contains;
  add_finalizer = λ names name. if contains names name then names else names ++ (name ∷ []);
  remove_finalizer = remove;
}

contains-append :
    (names : List String) (name : String) → contains (names ++ (name ∷ [])) name ≡ true
contains-append [] name = rw eq_refl
contains-append (n ∷ names) name = ground (arith, contains-append names name)

contains-add :
    (names : List String) (name : String) → contains (memory.add_finalizer names name) name ≡ true
contains-add names name = ground (arith, contains-append names name)

contains-remove : (names : List String) (name : String) → contains (remove names name) name ≡ false
contains-remove [] name = refl
contains-remove (n ∷ names) name = ground (arith, contains-remove names name)

module _ (s : Memory) (job : LmEvalJob) where
  store_status_done :
      (store_status s job).1 ≡ none
      → fetch (store_status s job).0 (job_key job) ≡ with_status (fetch s (job_key job)) job.status
  store_status_done h = ground (arith, key_eq_iff (job_key job) (job_key job))

  store_status_failed :
      (fetch (store_status s job).0 (job_key job) ≡ fetch s (job_key job))
      ⊎ (fetch (store_status s job).0 (job_key job)
          ≡ with_status (fetch s (job_key job)) job.status)
  store_status_failed = ground (arith, key_eq_iff (job_key job) (job_key job))

  store_status_other :
      (k : NamespacedName) → ¬ (k ≡ job_key job) → fetch (store_status s job).0 k ≡ fetch s k
  store_status_other k h = ground (arith, key_eq_iff k (job_key job))

  store_job_kept :
      (stored : LmEvalJob)
      → fetch s (job_key job) ≡ ok stored
      → is_zero_time stored.meta.deletion_timestamp ≡ true
      → (after : LmEvalJob) × (fetch (store_job s job).0 (job_key job) ≡ ok after)
        × (after.status ≡ stored.status)
  store_job_kept stored h z = (
    record stored { meta = job.meta; spec = job.spec },
    ground (arith, key_eq_iff (job_key job) (job_key job)),
    refl,
  )

  store_job_status :
      (stored after : LmEvalJob)
      → fetch s (job_key job) ≡ ok stored
      → fetch (store_job s job).0 (job_key job) ≡ ok after
      → after.status ≡ stored.status
  store_job_status stored after h g = ground (arith, key_eq_iff (job_key job) (job_key job))

  store_job_finalizers :
      (after : LmEvalJob)
      → (store_job s job).1 ≡ none
      → fetch (store_job s job).0 (job_key job) ≡ ok after
      → after.meta.finalizers ≡ job.meta.finalizers
  store_job_finalizers after h g = ground (arith, key_eq_iff (job_key job) (job_key job))

  store_job_other :
      (k : NamespacedName) → ¬ (k ≡ job_key job) → fetch (store_job s job).0 k ≡ fetch s k
  store_job_other k h = ground (arith, key_eq_iff k (job_key job))

  store_status_pods : (k : NamespacedName) → (store_status s job).0.pods k ≡ s.pods k
  store_status_pods k = ground arith

  store_job_pods : (k : NamespacedName) → (store_job s job).0.pods k ≡ s.pods k
  store_job_pods k = ground arith

fetch-key :
    (s : Memory) (k : NamespacedName) (job : LmEvalJob) → fetch s k ≡ ok job → job_key job ≡ k
fetch-key s k job h = ground (arith, key_eq_iff (job_key job) k)

module _ (s : Memory) (pod : Pod) where
  store_pod_jobs : (k : NamespacedName) → fetch (store_pod s pod).0 k ≡ fetch s k
  store_pod_jobs k = ground arith

  drop_pod_jobs : (k : NamespacedName) → fetch (drop_pod s pod).0 k ≡ fetch s k
  drop_pod_jobs k = ground arith

  store_pod_done :
      (made : Pod)
      → (store_pod s pod).1 ≡ ok made
      → ((store_pod s pod).0.pods (pod_key pod) ≡ ok made)
        × (made.meta.name ≡ pod.meta.name)
        × (made.meta.owner_references ≡ pod.meta.owner_references)
  store_pod_done made h = ground (arith, key_eq_iff (pod_key pod) (pod_key pod))

module _ (s : Memory) (pod : Pod) (k : NamespacedName) (ne : ¬ (k ≡ pod_key pod)) where
  store_pod_other : (store_pod s pod).0.pods k ≡ s.pods k
  store_pod_other = ground (arith, key_eq_iff k (pod_key pod))

  drop_pod_other : (drop_pod s pod).0.pods k ≡ s.pods k
  drop_pod_other = ground (arith, key_eq_iff k (pod_key pod))

pub memory-IsLawful : IsLawful memory
memory-IsLawful = record {
  get_job_key = fetch-key;
  update_status_done = store_status_done;
  update_status_failed = store_status_failed;
  update_status_other = store_status_other;
  update_status_pods = store_status_pods;
  update_kept = store_job_kept;
  update_status_apart = store_job_status;
  update_finalizers = store_job_finalizers;
  update_other = store_job_other;
  update_pods = store_job_pods;
  create_pod_jobs = store_pod_jobs;
  create_pod_done = store_pod_done;
  delete_pod_jobs = drop_pod_jobs;
  create_pod_other = store_pod_other;
  delete_pod_other = drop_pod_other;
  contains-add = contains-add;
  contains-remove = contains-remove;
}
