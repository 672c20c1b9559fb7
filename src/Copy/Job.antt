-- ===== src/Copy/Job.antt =====
-- The deep copy of a job (api/v1beta1/zz_generated.deepcopy.go).
use fms_lm_eval_service.Prelude.{
  ◌≡◌, refl, ap, sym, subst, ◌∙◌, Option, some, List, ◌∷◌, ◌++◌, All, All-append,
}
use fms_lm_eval_service.Api.Job.{LmEvalJob}
use fms_lm_eval_service.Copy.Memory.{Address, Cmd, Grows, Grows-refl, Grows-trans}
use fms_lm_eval_service.Copy.Layout.{
  Machinery, Cell, StoredJob, IsSpec, IsStatus, as_job, job_cell, At,
}
use fms_lm_eval_service.Copy.Generated.{
  deep_copy_spec_into, deep_copy_status_into, deep_copy_job_into, deep_copy_job,
}
use fms_lm_eval_service.Copy.Machinery.{IsMachinery}
use fms_lm_eval_service.Copy.Copied.{Copied, Copied-pure, Copied-bind, Fresh, All-Fresh-Grows}
use fms_lm_eval_service.Copy.Fields.{deep_copy_by-Copied}
use fms_lm_eval_service.Copy.Parts.{
  spec_owned, status_owned, deep_copy_spec_into-Copied, deep_copy_status_into-Copied, IsSpec-Grows,
  IsStatus-Grows,
}

module _ {T : Machinery} {copy_time : Address → Cmd (Cell T) Address}
    {copy_meta : T.Meta → Cmd (Cell T) T.Meta}
    {copy_list_meta : T.ListMeta → Cmd (Cell T) T.ListMeta}
    (X : IsMachinery T copy_time copy_meta copy_list_meta) where
  -- What a job in the memory stands for.
  pub record IsStoredJob (m : List (Cell T)) (j : StoredJob T) (v : LmEvalJob) : Type 0 where
    pub type_meta : j.type_meta ≡ v.type_meta
    pub meta : X.IsMeta m j.meta v.meta
    pub spec : IsSpec m j.spec v.spec
    pub status : IsStatus m j.status v.status

  pub IsStoredJob-Grows :
      (m m' : List (Cell T)) (j : StoredJob T) (v : LmEvalJob)
      → Grows m m'
      → IsStoredJob m j v
      → IsStoredJob m' j v
  IsStoredJob-Grows m m' j v g h = record {
    type_meta = h.type_meta;
    meta = X.IsMeta_grows m m' j.meta v.meta g h.meta;
    spec = IsSpec-Grows m m' j.spec v.spec g h.spec;
    status = IsStatus-Grows m m' j.status v.status g h.status;
  }

  -- What a job points to, but for its secrets.
  abbrev pub job_owned : List (Cell T) → StoredJob T → List (Option Address)
  job_owned m j = X.meta_owned m j.meta ++ (spec_owned j.spec ++ status_owned j.status)

  -- A copy of a job, made behind the cells of `b`.
  pub record CopiesJob (b : List (Cell T)) (j : StoredJob T) (v : LmEvalJob) (m' : List (Cell T))
      (j' : StoredJob T) : Type 0 where
    pub same : IsStoredJob m' j' v
    pub fresh : All (Fresh b) (job_owned m' j')
    pub env_secrets : j'.spec.env_secrets ≡ j.spec.env_secrets
    pub file_secrets : j'.spec.file_secrets ≡ j.spec.file_secrets

  pub CopiesJob-Grows :
      (b : List (Cell T)) (j : StoredJob T) (v : LmEvalJob) (m m' : List (Cell T))
      (j' : StoredJob T)
      → Grows m m'
      → CopiesJob b j v m j'
      → CopiesJob b j v m' j'
  CopiesJob-Grows b j v m m' j' g h = record {
    same = IsStoredJob-Grows m m' j' v g h.same;
    fresh =
        subst (λ xs. All (Fresh b) (xs ++ (spec_owned j'.spec ++ status_owned j'.status)))
          (sym (X.meta_owned_grows m m' j'.meta v.meta g h.same.meta)) h.fresh;
    env_secrets = h.env_secrets;
    file_secrets = h.file_secrets;
  }

  pub deep_copy_job_into-Copied :
      (b m : List (Cell T)) (j : StoredJob T) (v : LmEvalJob)
      → Grows b m
      → IsStoredJob b j v
      → Copied m (deep_copy_job_into copy_time copy_meta copy_list_meta j) (CopiesJob b j v)
  unfolding deep_copy_job_into
  deep_copy_job_into-Copied b m j v g0 h =
      Copied-bind m (copy_meta j.meta) _ _ _
        (X.meta_copied m j.meta v.meta (X.IsMeta_grows b m j.meta v.meta g0 h.meta))
        (λ meta m1 g1 c1.
          let g1' = Grows-trans b m m1 g0 g1 in
          Copied-bind m1 (deep_copy_spec_into j.spec) _ _ _
            (deep_copy_spec_into-Copied b m1 j.spec v.spec g1' h.spec)
            (λ spec m2 g2 c2.
              let g2' = Grows-trans b m1 m2 g1' g2 in
              Copied-bind m2 (deep_copy_status_into copy_time j.status) _ _ _
                (deep_copy_status_into-Copied copy_time X b m2 j.status v.status g2' h.status)
                (λ status m3 g3 c3.
                  let g13 = Grows-trans m1 m2 m3 g2 g3 in
                  Copied-pure m3 _ _ (record {
                    same = record {
                      type_meta = h.type_meta;
                      meta = X.IsMeta_grows m1 m3 meta v.meta g13 c1.0;
                      spec = IsSpec-Grows m2 m3 spec v.spec g3 c2.same;
                      status = c3.same;
                    };
                    fresh =
                        All-append (Fresh b) (X.meta_owned m3 meta) _
                          (subst (All (Fresh b))
                            (sym (X.meta_owned_grows m1 m3 meta v.meta g13 c1.0))
                            (All-Fresh-Grows b m (X.meta_owned m1 meta) g0 c1.1))
                          (All-append (Fresh b) (spec_owned spec) (status_owned status) c2.fresh
                            c3.fresh);
                    env_secrets = c2.env_secrets;
                    file_secrets = c2.file_secrets;
                  }))))

  -- For a pointer to a job that stands for a value, `DeepCopy` ends and gives a pointer to a new
  -- job that stands for the same value; the cells there are left as they are; the new job and what
  -- it points to, but for the arrays of its secrets, are new, and these arrays are those of the
  -- first job.
  pub deep_copy_job-copies :
      (m : List (Cell T)) (a : Address) (j : StoredJob T) (v : LmEvalJob)
      → At m as_job a j
      → IsStoredJob m j v
      → (a' : Address) × (j' : StoredJob T) × (m' : List (Cell T)) × (deep_copy_job copy_time
            copy_meta copy_list_meta
            (some a)
            m
          ≡ some (some a', m'))
        × Grows m m'
        × At m' as_job a' j'
        × IsStoredJob m' j' v
        × All (Fresh m) (some a' ∷ job_owned m' j')
        × (j'.spec.env_secrets ≡ j.spec.env_secrets)
        × (j'.spec.file_secrets ≡ j.spec.file_secrets)
  unfolding deep_copy_job
  deep_copy_job-copies m a j v h view =
      let (q, m', e, g, (a', j', p, there, copies, fresh)) =
        deep_copy_by-Copied as_job job_cell (λ x. refl) m m
          (deep_copy_job_into copy_time copy_meta copy_list_meta) (CopiesJob m j v) a j
          (CopiesJob-Grows m j v) (Grows-refl m) h
          (λ m1 g1. deep_copy_job_into-Copied m m1 j v g1 view) in
      (
        a',
        j',
        m',
        e ∙ ap (λ z. some (z, m')) p,
        g,
        there,
        copies.same,
        (fresh, copies.fresh),
        copies.env_secrets,
        copies.file_secrets,
      )
