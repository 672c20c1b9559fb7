-- ===== src/Tests/Logged.antt =====
-- A cluster with a log of its writes.
use fms_lm_eval_service.Prelude.{refl, List, [], ◌∷◌, ◌++◌}
use fms_lm_eval_service.Cluster.Interface.{Kube, IsLawful, World}
use fms_lm_eval_service.Reconcile.Calls.{Call, updated, status_updated, created, deleted, Logs}

abbrev pub logged : Kube → Kube
logged K = record K {
  Server = K.Server × List Call;
  get_job = λ s k. K.get_job s.0 k;
  get_pod = λ s k. K.get_pod s.0 k;
  get_secret = λ s k. K.get_secret s.0 k;
  update = λ s job. (((K.update s.0 job).0, s.1 ++ (updated job ∷ [])), (K.update s.0 job).1);
  update_status = λ s job. (
    ((K.update_status s.0 job).0, s.1 ++ (status_updated job ∷ [])),
    (K.update_status s.0 job).1,
  );
  create_pod =
      λ s pod. (((K.create_pod s.0 pod).0, s.1 ++ (created pod ∷ [])), (K.create_pod s.0 pod).1);
  delete_pod =
      λ s pod. (((K.delete_pod s.0 pod).0, s.1 ++ (deleted pod ∷ [])), (K.delete_pod s.0 pod).1);
}

pub logged-IsLawful : (K : Kube) → IsLawful K → IsLawful (logged K)
logged-IsLawful K L = record {
  get_job_key = λ s. L.get_job_key s.0;
  update_status_done = λ s. L.update_status_done s.0;
  update_status_failed = λ s. L.update_status_failed s.0;
  update_status_other = λ s. L.update_status_other s.0;
  update_status_pods = λ s. L.update_status_pods s.0;
  update_kept = λ s. L.update_kept s.0;
  update_status_apart = λ s. L.update_status_apart s.0;
  update_finalizers = λ s. L.update_finalizers s.0;
  update_other = λ s. L.update_other s.0;
  update_pods = λ s. L.update_pods s.0;
  create_pod_jobs = λ s. L.create_pod_jobs s.0;
  create_pod_done = λ s. L.create_pod_done s.0;
  delete_pod_jobs = λ s. L.delete_pod_jobs s.0;
  create_pod_other = λ s. L.create_pod_other s.0;
  delete_pod_other = λ s. L.delete_pod_other s.0;
  contains-add = L.contains-add;
  contains-remove = L.contains-remove;
}

pub logged-Logs : (K : Kube) → Logs (logged K) (λ s. s.1)
logged-Logs K = record {
  of_update = λ s job. refl;
  of_update_status = λ s job. refl;
  of_create_pod = λ s pod. refl;
  of_delete_pod = λ s pod. refl;
}

-- The world of a server that no write has reached.
abbrev pub unlogged : (K : Kube) → K.Server → World (logged K)
unlogged K s = record { server = (s, []); events = [] }
