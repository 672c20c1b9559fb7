-- ===== src/Lifecycle/Reconciled.antt =====
-- Reconcile (backend/controller/lmevaljob_controller.go) against the diagram of one status, whatever
-- key it is called for and whether the job is being deleted.
use fms_lm_eval_service.Prelude.{
  ◌==◌, eq_iff, ◌≡◌, refl, sym, subst, ◌∙◌, ◌⊎◌, inl, inr, Option, none, some, Bool-cases, arith,
}
use fms_lm_eval_service.Api.Core.{Time, is_zero_time, ok, Result-cases, NamespacedName}
use fms_lm_eval_service.Api.Job.{LmEvalJob, LmEvalJobStatus, job_key, finalizer_name}
use fms_lm_eval_service.Cluster.Interface.{Kube, IsLawful, World}
use fms_lm_eval_service.Cluster.Laws.{at_own_key}
use fms_lm_eval_service.Pod.Options.{Reconciler}
use fms_lm_eval_service.Reconcile.Diagram.{Moves}
use fms_lm_eval_service.Reconcile.Dispatch.{reconcile-absent, reconcile-deleted}
use fms_lm_eval_service.Reconcile.Handlers.{handle_deletion, reconcile}
use fms_lm_eval_service.Reconcile.Moves.{reconcile-Moves}
use fms_lm_eval_service.Reconcile.Release.{
  released, cleared, cleared-jobs, handle_deletion-free, handle_deletion-server,
}
use fms_lm_eval_service.Reconcile.Frame.{reconcile-other_job}
use fms_lm_eval_service.Lifecycle.System.{seen}

-- The changes of a status that may be missing: a job that is gone does not come back.
abbrev pub FollowsBy :
    (LmEvalJobStatus → LmEvalJobStatus → Type 0)
    → Option LmEvalJobStatus
    → Option LmEvalJobStatus
    → Type 0
FollowsBy C none o = o ≡ none
FollowsBy C (some s) none = Unit
FollowsBy C (some s) (some s') = C s s'

pub FollowsBy-map :
    (C D : LmEvalJobStatus → LmEvalJobStatus → Type 0)
    → ((s s' : LmEvalJobStatus) → C s s' → D s s')
    → (o o' : Option LmEvalJobStatus) → FollowsBy C o o'
    → FollowsBy D o o'
FollowsBy-map C D f none o' e = e
FollowsBy-map C D f (some s) none _ = tt
FollowsBy-map C D f (some s) (some s') c = f s s' c

pub FollowsBy-refl :
    (C : LmEvalJobStatus → LmEvalJobStatus → Type 0)
    → ((s : LmEvalJobStatus) → C s s)
    → (o : Option LmEvalJobStatus) → FollowsBy C o o
FollowsBy-refl C same none = refl
FollowsBy-refl C same (some s) = same s

-- What one reconciliation may make of a status.
abbrev pub Reconciles : LmEvalJobStatus → LmEvalJobStatus → Type 0
Reconciles s s' = (s' ≡ s) ⊎ ((now : Time) × Moves now s s')

pub key-cases : (a b : NamespacedName) → (a ≡ b) ⊎ (¬ (a ≡ b))
key-cases a b = elim (Bool-cases (a.namespace == b.namespace)) [
  | inr n ↦ inr (λ e. ground (arith, eq_iff a.namespace b.namespace))
  | inl e ↦ elim (Bool-cases (a.name == b.name)) [
    | inr n ↦ inr (λ e. ground (arith, eq_iff a.name b.name))
    | inl e' ↦ inl (ground (arith, eq_iff a.namespace b.namespace, eq_iff a.name b.name))
  ]
]

module _ (K : Kube) (r : Reconciler) (L : IsLawful K) (k : NamespacedName) (w : World K) where
  unmoved : FollowsBy Reconciles (seen K r k w) (seen K r k w)
  unmoved = FollowsBy-refl Reconciles (λ s. inl refl) (seen K r k w)

  handle_deletion-FollowsBy :
      (job : LmEvalJob)
      → K.get_job w.server k ≡ ok job
      → FollowsBy Reconciles (seen K r k w) (seen K r k (handle_deletion K r w job).0)
  handle_deletion-FollowsBy job h =
      elim (Bool-cases (K.contains_finalizer job.meta.finalizers finalizer_name)) [
        | inr free ↦ rw (handle_deletion-free K r w job free) unmoved
        | inl holds ↦
            rw (handle_deletion-server K r w job holds)
              (elim (Result-cases
                (K.get_job (K.update (cleared K r w job).server (released K r w job)).0 k)) [
                  | inr (e, gone) ↦ rw (h, gone) tt
                  | inl (after, there) ↦
                      rw (h, there)
                        (inl (
                          L.update_status_apart (cleared K r w job).server (released K r w job) job
                            after
                            (cleared-jobs K r w job L (job_key job)
                              ∙ at_own_key K L w.server k job h)
                            (at_key after there)))
                ])
      ]
    where
      at_key :
          (after : LmEvalJob)
          → K.get_job (K.update (cleared K r w job).server (released K r w job)).0 k ≡ ok after
          → K.get_job (K.update (cleared K r w job).server (released K r w job)).0 (job_key job)
            ≡ ok after
      at_key after =
          subst
            (λ j.
              K.get_job (K.update (cleared K r w job).server (released K r w job)).0 j ≡ ok after)
            (sym (L.get_job_key w.server k job h))

  own_key-FollowsBy :
      (now : Time) → FollowsBy Reconciles (seen K r k w) (seen K r k (reconcile K r now w k).0)
  own_key-FollowsBy now = elim (Result-cases (K.get_job w.server k)) [
    | inr (e, h) ↦ rw (reconcile-absent K r now w k e h) unmoved
    | inl (job, h) ↦ elim (Bool-cases (is_zero_time job.meta.deletion_timestamp)) [
      | inr d ↦ rw (reconcile-deleted K r now w k job h d) (handle_deletion-FollowsBy job h)
      | inl z ↦
          let (after, there, move) = reconcile-Moves K r L now w k job h z in
          rw (h, there) (inr (now, move))
    ]
  ]

  -- A reconciliation of any key lets the status under `k` be, moves it, or removes the job.
  pub reconcile-FollowsBy :
      (now : Time) (other : NamespacedName)
      → FollowsBy Reconciles (seen K r k w) (seen K r k (reconcile K r now w other).0)
  reconcile-FollowsBy now other = elim (key-cases k other) [
    | inl at ↦ rw (← at) (own_key-FollowsBy now)
    | inr apart ↦ rw (reconcile-other_job K r L now w other k apart) unmoved
  ]
