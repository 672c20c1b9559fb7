-- ===== src/Cluster/Interface.antt =====
-- controller-runtime is not part of the repository, so its client, the finalizer helpers of
-- controllerutil and `client.IgnoreNotFound` are a record of operations over an unknown server.
-- A read does not change the server; a write returns the server after it, and the error if any.
use fms_lm_eval_service.Prelude.{String, Bool, true, false, ◌≡◌, ◌⊎◌, Option, none, List, ◌∷◌}
use fms_lm_eval_service.Api.Core.{Error, Result, ok, err, NamespacedName, Pod, Event, is_zero_time}
use fms_lm_eval_service.Api.Job.{LmEvalJob, LmEvalJobStatus, job_key}

pub record Kube : Type 1 where
  pub Server : Type 0
  pub get_job : Server → NamespacedName → Result LmEvalJob
  pub get_pod : Server → NamespacedName → Result Pod
  -- What a `Get` of a Secret returns.
  pub get_secret : Server → NamespacedName → Option Error
  -- `Update`, `Status().Update`, `Create` (the pod as the server stored it) and `Delete`
  pub update : Server → LmEvalJob → Server × Option Error
  pub update_status : Server → LmEvalJob → Server × Option Error
  pub create_pod : Server → Pod → Server × Result Pod
  pub delete_pod : Server → Pod → Server × Option Error
  pub ignore_not_found : Error → Option Error
  -- controllerutil, on the object's list of finalizers
  pub contains_finalizer : List String → String → Bool
  pub add_finalizer : List String → String → List String
  pub remove_finalizer : List String → String → List String

-- The key under which a pod is stored.
abbrev pub pod_key : Pod → NamespacedName
pod_key pod = record { namespace = pod.meta.namespace; name = pod.meta.name }

-- The stored job after a write to its status subresource: nothing else changes.
abbrev pub with_status : Result LmEvalJob → LmEvalJobStatus → Result LmEvalJob
with_status (ok job) status = ok (record job { status = status })
with_status (err e) status = err e

-- What the code may rely on. A write that fails has been applied or not; it never does a part.
-- Other keys, and objects of the other kind, are left alone.
pub record IsLawful (K : Kube) : Type 0 where
  pub get_job_key :
      (s : K.Server) (k : NamespacedName) (job : LmEvalJob)
      → K.get_job s k ≡ ok job
      → job_key job ≡ k
  pub update_status_done :
      (s : K.Server) (job : LmEvalJob)
      → (K.update_status s job).1 ≡ none
      → K.get_job (K.update_status s job).0 (job_key job)
        ≡ with_status (K.get_job s (job_key job)) job.status
  pub update_status_failed :
      (s : K.Server) (job : LmEvalJob)
      → (K.get_job (K.update_status s job).0 (job_key job) ≡ K.get_job s (job_key job))
        ⊎ (K.get_job (K.update_status s job).0 (job_key job)
            ≡ with_status (K.get_job s (job_key job)) job.status)
  pub update_status_other :
      (s : K.Server) (job : LmEvalJob) (k : NamespacedName)
      → ¬ (k ≡ job_key job)
      → K.get_job (K.update_status s job).0 k ≡ K.get_job s k
  pub update_status_pods :
      (s : K.Server) (job : LmEvalJob) (k : NamespacedName)
      → K.get_pod (K.update_status s job).0 k ≡ K.get_pod s k
  -- `Update` leaves the status alone, and an object that is not being deleted stays.
  pub update_kept :
      (s : K.Server) (job stored : LmEvalJob)
      → K.get_job s (job_key job) ≡ ok stored
      → is_zero_time stored.meta.deletion_timestamp ≡ true
      → (after : LmEvalJob) × (K.get_job (K.update s job).0 (job_key job) ≡ ok after)
        × (after.status ≡ stored.status)
  pub update_status_apart :
      (s : K.Server) (job stored after : LmEvalJob)
      → K.get_job s (job_key job) ≡ ok stored
      → K.get_job (K.update s job).0 (job_key job) ≡ ok after
      → after.status ≡ stored.status
  -- What an `Update` that succeeds leaves under the key, if anything, has the finalizers it wrote.
  pub update_finalizers :
      (s : K.Server) (job after : LmEvalJob)
      → (K.update s job).1 ≡ none
      → K.get_job (K.update s job).0 (job_key job) ≡ ok after
      → after.meta.finalizers ≡ job.meta.finalizers
  pub update_other :
      (s : K.Server) (job : LmEvalJob) (k : NamespacedName)
      → ¬ (k ≡ job_key job)
      → K.get_job (K.update s job).0 k ≡ K.get_job s k
  pub update_pods :
      (s : K.Server) (job : LmEvalJob) (k : NamespacedName)
      → K.get_pod (K.update s job).0 k ≡ K.get_pod s k
  pub create_pod_jobs :
      (s : K.Server) (pod : Pod) (k : NamespacedName)
      → K.get_job (K.create_pod s pod).0 k ≡ K.get_job s k
  pub create_pod_done :
      (s : K.Server) (pod made : Pod)
      → (K.create_pod s pod).1 ≡ ok made
      → (K.get_pod (K.create_pod s pod).0 (pod_key pod) ≡ ok made)
        × (made.meta.name ≡ pod.meta.name)
        × (made.meta.owner_references ≡ pod.meta.owner_references)
  pub delete_pod_jobs :
      (s : K.Server) (pod : Pod) (k : NamespacedName)
      → K.get_job (K.delete_pod s pod).0 k ≡ K.get_job s k
  pub create_pod_other :
      (s : K.Server) (pod : Pod) (k : NamespacedName)
      → ¬ (k ≡ pod_key pod)
      → K.get_pod (K.create_pod s pod).0 k ≡ K.get_pod s k
  pub delete_pod_other :
      (s : K.Server) (pod : Pod) (k : NamespacedName)
      → ¬ (k ≡ pod_key pod)
      → K.get_pod (K.delete_pod s pod).0 k ≡ K.get_pod s k
  pub contains-add :
      (names : List String) (name : String)
      → K.contains_finalizer (K.add_finalizer names name) name ≡ true
  pub contains-remove :
      (names : List String) (name : String)
      → K.contains_finalizer (K.remove_finalizer names name) name ≡ false

-- What a handler changes: the server, and the events that the recorder was given, newest first.
pub record World (K : Kube) : Type 0 where
  pub server : K.Server
  pub events : List Event

module _ (K : Kube) where
  -- `r.Recorder.Event(job, …)`
  abbrev pub emit : World K → Event → World K
  emit w event = record w { events = event ∷ w.events }

  -- `r.Status().Update(ctx, job)`
  abbrev pub push_status : World K → LmEvalJob → World K × Option Error
  push_status w job = let (s, e) = K.update_status w.server job in (record w { server = s }, e)

  -- `r.Update(ctx, job)`
  abbrev pub push_job : World K → LmEvalJob → World K × Option Error
  push_job w job = let (s, e) = K.update w.server job in (record w { server = s }, e)
