-- ===== src/Cluster/Laws.antt =====
-- What follows from the assumptions on the cluster.
use fms_lm_eval_service.Prelude.{◌≡◌, ◌∙◌, sym, subst, none}
use fms_lm_eval_service.Api.Core.{ok, NamespacedName}
use fms_lm_eval_service.Api.Job.{LmEvalJob, LmEvalJobStatus, job_key}
use fms_lm_eval_service.Cluster.Interface.{Kube, IsLawful}

module _ (K : Kube) (L : IsLawful K) (s : K.Server) (k : NamespacedName) (job : LmEvalJob)
    (h : K.get_job s k ≡ ok job) where
  -- The job is found under its own key.
  pub at_own_key : K.get_job s (job_key job) ≡ ok job
  at_own_key = subst (λ j. K.get_job s j ≡ ok job) (sym (L.get_job_key s k job h)) h

  -- A status that was written without an error is read back.
  pub status_written :
      (status : LmEvalJobStatus)
      → (K.update_status s (record job { status = status })).1 ≡ none
      → K.get_job (K.update_status s (record job { status = status })).0 k
        ≡ ok (record job { status = status })
  status_written status done =
      subst
        (λ j.
          K.get_job (K.update_status s (record job { status = status })).0 j
          ≡ ok (record job { status = status }))
        (L.get_job_key s k job h)
        (L.update_status_done s (record job { status = status }) done ∙ rw at_own_key)
