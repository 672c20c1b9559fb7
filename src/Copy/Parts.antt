-- ===== src/Copy/Parts.antt =====
-- The deep copies of a spec and a status (api/v1beta1/zz_generated.deepcopy.go).
use fms_lm_eval_service.Prelude.{◌≡◌, refl, Option, none, some, List, [], ◌∷◌, All}
use fms_lm_eval_service.Api.Core.{Time}
use fms_lm_eval_service.Api.Job.{LmEvalJobSpec, LmEvalJobStatus}
use fms_lm_eval_service.Copy.Memory.{Address, Cmd, pure, Grows, Grows-trans}
use fms_lm_eval_service.Copy.Layout.{
  Machinery, array_of, Cell, StoredSpec, StoredStatus, IsSpec, IsStatus, as_args, as_strings,
  as_int, as_bool, as_time, args_cell, strings_cell, int_cell, bool_cell, as_env_secrets,
  as_file_secrets, Points,
}
use fms_lm_eval_service.Copy.Generated.{
  copy_content, copy_slice, deep_copy_spec_into, deep_copy_status_into, copy_time_field,
}
use fms_lm_eval_service.Copy.Copied.{Copied, Copied-pure, Copied-bind, Fresh, Fresh-Grows}
use fms_lm_eval_service.Copy.Machinery.{IsMachinery}
use fms_lm_eval_service.Copy.Fields.{
  At-Grows, Points-Grows, Lists-Grows, Slices-Grows, copy_content-Points, copy_slice-Lists,
  copy_slice-Slices,
}

-- What a spec points to, and a copy of it does not share.
abbrev pub spec_owned : StoredSpec → List (Option Address)
spec_owned s =
    array_of s.model_args
    ∷ array_of s.tasks
    ∷ s.num_few_shot
    ∷ array_of s.gen_args
    ∷ s.log_samples
    ∷ []

abbrev pub status_owned : StoredStatus → List (Option Address)
status_owned s = s.last_schedule_time ∷ s.complete_time ∷ []

module _ {T : Machinery} (m m' : List (Cell T)) where
  pub IsSpec-Grows :
      (s : StoredSpec) (v : LmEvalJobSpec) → Grows m m' → IsSpec m s v → IsSpec m' s v
  IsSpec-Grows s v g h = record {
    model = h.model;
    model_args = Slices-Grows as_args m m' s.model_args v.model_args g h.model_args;
    tasks = Lists-Grows as_strings m m' s.tasks v.tasks g h.tasks;
    num_few_shot = Points-Grows as_int m m' s.num_few_shot v.num_few_shot g h.num_few_shot;
    limit = h.limit;
    gen_args = Slices-Grows as_args m m' s.gen_args v.gen_args g h.gen_args;
    log_samples = Points-Grows as_bool m m' s.log_samples v.log_samples g h.log_samples;
    env_secrets = Lists-Grows as_env_secrets m m' s.env_secrets v.env_secrets g h.env_secrets;
    file_secrets = Lists-Grows as_file_secrets m m' s.file_secrets v.file_secrets g h.file_secrets;
  }

  pub IsStatus-Grows :
      (s : StoredStatus) (v : LmEvalJobStatus) → Grows m m' → IsStatus m s v → IsStatus m' s v
  IsStatus-Grows s v g h = record {
    pod_name = h.pod_name;
    state = h.state;
    reason = h.reason;
    message = h.message;
    last_schedule_time =
        Points-Grows as_time m m' s.last_schedule_time v.last_schedule_time g h.last_schedule_time;
    complete_time = Points-Grows as_time m m' s.complete_time v.complete_time g h.complete_time;
    results = h.results;
  }

module _ {T : Machinery} where
  -- A copy of a spec: the arrays of the secrets are those of the spec itself.
  pub record CopiesSpec (b : List (Cell T)) (s : StoredSpec) (v : LmEvalJobSpec)
      (m' : List (Cell T)) (s' : StoredSpec) : Type 0 where
    pub same : IsSpec m' s' v
    pub fresh : All (Fresh b) (spec_owned s')
    pub env_secrets : s'.env_secrets ≡ s.env_secrets
    pub file_secrets : s'.file_secrets ≡ s.file_secrets

  pub record CopiesStatus (b : List (Cell T)) (v : LmEvalJobStatus) (m' : List (Cell T))
      (s' : StoredStatus) : Type 0 where
    pub same : IsStatus m' s' v
    pub fresh : All (Fresh b) (status_owned s')

  pub deep_copy_spec_into-Copied :
      (b m : List (Cell T)) (s : StoredSpec) (v : LmEvalJobSpec)
      → Grows b m
      → IsSpec b s v
      → Copied m (deep_copy_spec_into s) (CopiesSpec b s v)
  unfolding deep_copy_spec_into
  deep_copy_spec_into-Copied b m s v g0 h =
      Copied-bind m (copy_slice as_args args_cell pure s.model_args) _ _ _
        (copy_slice-Slices as_args args_cell (λ x. refl) b m s.model_args v.model_args g0
          h.model_args)
        (λ model_args m1 g1 c1.
          let g1' = Grows-trans b m m1 g0 g1 in
          Copied-bind m1 (copy_slice as_strings strings_cell pure s.tasks) _ _ _
            (copy_slice-Lists as_strings strings_cell (λ x. refl) b m1 s.tasks v.tasks g1' h.tasks)
            (λ tasks m2 g2 c2.
              let g2' = Grows-trans b m1 m2 g1' g2 in
              Copied-bind m2 (copy_content as_int int_cell s.num_few_shot) _ _ _
                (copy_content-Points as_int int_cell (λ x. refl) b m2 s.num_few_shot v.num_few_shot
                  g2' h.num_few_shot)
                (λ num_few_shot m3 g3 c3.
                  let g3' = Grows-trans b m2 m3 g2' g3 in
                  Copied-bind m3 (copy_slice as_args args_cell pure s.gen_args) _ _ _
                    (copy_slice-Slices as_args args_cell (λ x. refl) b m3 s.gen_args v.gen_args g3'
                      h.gen_args)
                    (λ gen_args m4 g4 c4.
                      let g4' = Grows-trans b m3 m4 g3' g4 in
                      Copied-bind m4 (copy_content as_bool bool_cell s.log_samples) _ _ _
                        (copy_content-Points as_bool bool_cell (λ x. refl) b m4 s.log_samples
                          v.log_samples g4' h.log_samples)
                        (λ log_samples m5 g5 c5.
                          let g5' = Grows-trans b m4 m5 g4' g5 in
                          let g45 = g5 in
                          let g35 = Grows-trans m3 m4 m5 g4 g5 in
                          let g25 = Grows-trans m2 m3 m5 g3 g35 in
                          let g15 = Grows-trans m1 m2 m5 g2 g25 in
                          Copied-pure m5 _ _ (record {
                            same = record {
                              model = h.model;
                              model_args =
                                  Slices-Grows as_args m1 m5 model_args v.model_args g15 c1.0;
                              tasks = Lists-Grows as_strings m2 m5 tasks v.tasks g25 c2.0;
                              num_few_shot =
                                  Points-Grows as_int m3 m5 num_few_shot v.num_few_shot g35 c3.0;
                              limit = h.limit;
                              gen_args = Slices-Grows as_args m4 m5 gen_args v.gen_args g45 c4.0;
                              log_samples = c5.0;
                              env_secrets =
                                  Lists-Grows as_env_secrets b m5 s.env_secrets v.env_secrets g5'
                                    h.env_secrets;
                              file_secrets =
                                  Lists-Grows as_file_secrets b m5 s.file_secrets v.file_secrets g5'
                                    h.file_secrets;
                            };
                            fresh = (c1.1, (c2.1, (c3.1, (c4.1, (c5.1, tt)))));
                            env_secrets = refl;
                            file_secrets = refl;
                          }))))))

module _ {T : Machinery} (copy_time : Address → Cmd (Cell T) Address)
    {copy_meta : T.Meta → Cmd (Cell T) T.Meta}
    {copy_list_meta : T.ListMeta → Cmd (Cell T) T.ListMeta}
    (X : IsMachinery T copy_time copy_meta copy_list_meta) where
  copy_time_field-Points :
      (b m : List (Cell T)) (p : Option Address) (v : Option Time)
      → Grows b m
      → Points b as_time p v
      → Copied m (copy_time_field copy_time p) (λ m' q. Points m' as_time q v × Fresh b q)
  copy_time_field-Points b m none v g h = Copied-pure m none _ (h, tt)
  copy_time_field-Points b m (some a) none g h = absurd h
  copy_time_field-Points b m (some a) (some t) g h =
      Copied-bind m (copy_time a) (λ a'. pure (some a')) _ _
        (X.time_copied m a t (At-Grows as_time b m a t g h))
        (λ a' m1 g1 made. Copied-pure m1 (some a') _ (made.0, Fresh-Grows b m (some a') g made.1))

  pub deep_copy_status_into-Copied :
      (b m : List (Cell T)) (s : StoredStatus) (v : LmEvalJobStatus)
      → Grows b m
      → IsStatus b s v
      → Copied m (deep_copy_status_into copy_time s) (CopiesStatus b v)
  unfolding deep_copy_status_into
  deep_copy_status_into-Copied b m s v g h =
      Copied-bind m (copy_time_field copy_time s.last_schedule_time) _ _ _
        (copy_time_field-Points b m s.last_schedule_time v.last_schedule_time g
          h.last_schedule_time)
        (λ last m1 g1 c1.
          Copied-bind m1 (copy_time_field copy_time s.complete_time) _ _ _
            (copy_time_field-Points b m1 s.complete_time v.complete_time (Grows-trans b m m1 g g1)
              h.complete_time)
            (λ complete m2 g2 c2. Copied-pure m2 _ _ (record {
              same = record {
                pod_name = h.pod_name;
                state = h.state;
                reason = h.reason;
                message = h.message;
                last_schedule_time = Points-Grows as_time m1 m2 last v.last_schedule_time g2 c1.0;
                complete_time = c2.0;
                results = h.results;
              };
              fresh = (c1.1, (c2.1, tt));
            })))
