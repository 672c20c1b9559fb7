-- ===== src/Copy/Generated.antt =====
-- api/v1beta1/zz_generated.deepcopy.go. `*out = *in` and what follows it on `out` are the fields of
-- one record. A variable or an array is allocated with its content, where the code allocates it first
-- and fills it then.
use fms_lm_eval_service.Prelude.{Option, none, some, List, [], ◌∷◌}
use fms_lm_eval_service.Copy.Memory.{Address, Cmd, pure, ◌>>=◌, load, alloc, take}
use fms_lm_eval_service.Copy.Layout.{
  Machinery, Slice, StoredSpec, StoredStatus, StoredJob, StoredJobList, Cell, int_cell, bool_cell,
  arg_cell, spec_cell, status_cell, job_cell, job_list_cell, args_cell, strings_cell, jobs_cell,
  as_int, as_bool, as_arg, as_spec, as_status, as_job, as_job_list, as_args, as_strings, as_jobs,
}

module _ {T : Machinery} where
  -- A new variable with the content of the one at an address, if that is not nil.
  abbrev pub copy_content :
      {V : Type 0}
      → (Cell T → Option V)
      → (V → Cell T)
      → Option Address
      → Cmd (Cell T) (Option Address)
  copy_content read write none = pure none
  copy_content read write (some a) = do v ← load read a; a' ← alloc (write v); pure (some a')

  -- A new array for the elements of a slice, if that is not nil, each of them copied by `into`.
  abbrev pub copy_slice :
      {V : Type 0}
      → (Cell T → Option (List V))
      → (List V → Cell T)
      → (List V → Cmd (Cell T) (List V))
      → Option Slice
      → Cmd (Cell T) (Option Slice)
  copy_slice read write into none = pure none
  copy_slice read write into (some s) = do
    array ← load read s.array
    vs ← into (take s.length array)
    a ← alloc (write vs)
    pure (some (record { array = a; length = s.length }))

  -- `DeepCopy` of a type by its `DeepCopyInto`.
  abbrev pub deep_copy_by :
      {V : Type 0}
      → (Cell T → Option V)
      → (V → Cell T)
      → (V → Cmd (Cell T) V)
      → Option Address
      → Cmd (Cell T) (Option Address)
  deep_copy_by read write into none = pure none
  deep_copy_by read write into (some a) = do
    v ← load read a
    v' ← into v
    a' ← alloc (write v')
    pure (some a')

  abbrev pub deep_copy_arg : Option Address → Cmd (Cell T) (Option Address)
  deep_copy_arg = deep_copy_by as_arg arg_cell pure

  unfoldable pub deep_copy_spec_into : StoredSpec → Cmd (Cell T) StoredSpec
  deep_copy_spec_into s = do
    model_args ← copy_slice as_args args_cell pure s.model_args
    tasks ← copy_slice as_strings strings_cell pure s.tasks
    num_few_shot ← copy_content as_int int_cell s.num_few_shot
    gen_args ← copy_slice as_args args_cell pure s.gen_args
    log_samples ← copy_content as_bool bool_cell s.log_samples
    pure (record s {
      model_args = model_args;
      tasks = tasks;
      num_few_shot = num_few_shot;
      gen_args = gen_args;
      log_samples = log_samples;
    })

  unfoldable pub deep_copy_spec : Option Address → Cmd (Cell T) (Option Address)
  unfolding deep_copy_spec_into
  deep_copy_spec = deep_copy_by as_spec spec_cell deep_copy_spec_into

  -- `copy_time` is `DeepCopy` of `*v1.Time`, where the pointer is not nil.
  module _ (copy_time : Address → Cmd (Cell T) Address) where
    abbrev pub copy_time_field : Option Address → Cmd (Cell T) (Option Address)
    copy_time_field none = pure none
    copy_time_field (some a) = do a' ← copy_time a; pure (some a')

    unfoldable pub deep_copy_status_into : StoredStatus → Cmd (Cell T) StoredStatus
    deep_copy_status_into s = do
      last_schedule_time ← copy_time_field s.last_schedule_time
      complete_time ← copy_time_field s.complete_time
      pure (record s { last_schedule_time = last_schedule_time; complete_time = complete_time })

    unfoldable pub deep_copy_status : Option Address → Cmd (Cell T) (Option Address)
    unfolding deep_copy_status_into
    deep_copy_status = deep_copy_by as_status status_cell deep_copy_status_into

    -- `copy_meta` and `copy_list_meta` are `DeepCopyInto` of `ObjectMeta` and `ListMeta`.
    module _ (copy_meta : T.Meta → Cmd (Cell T) T.Meta)
        (copy_list_meta : T.ListMeta → Cmd (Cell T) T.ListMeta) where
      unfoldable pub deep_copy_job_into : StoredJob T → Cmd (Cell T) (StoredJob T)
      unfolding deep_copy_spec_into deep_copy_status_into
      deep_copy_job_into job = do
        meta ← copy_meta job.meta
        spec ← deep_copy_spec_into job.spec
        status ← deep_copy_status_into job.status
        pure (record job { meta = meta; spec = spec; status = status })

      unfoldable pub deep_copy_job : Option Address → Cmd (Cell T) (Option Address)
      unfolding deep_copy_job_into
      deep_copy_job = deep_copy_by as_job job_cell deep_copy_job_into

      -- `DeepCopyObject`: an interface of the copy, or nil.
      unfoldable pub deep_copy_job_object : Option Address → Cmd (Cell T) (Option Address)
      unfolding deep_copy_job
      deep_copy_job_object a = do
        c ← deep_copy_job a
        elim c [ some a' ↦ pure (some a') | none ↦ pure none ]

      -- The loop over the items.
      unfoldable pub copy_items : List (StoredJob T) → Cmd (Cell T) (List (StoredJob T))
      unfolding deep_copy_job_into
      copy_items [] = pure []
      copy_items (job ∷ jobs) = do
        job' ← deep_copy_job_into job
        jobs' ← copy_items jobs
        pure (job' ∷ jobs')

      unfoldable pub deep_copy_job_list_into : StoredJobList T → Cmd (Cell T) (StoredJobList T)
      unfolding copy_items
      deep_copy_job_list_into l = do
        meta ← copy_list_meta l.meta
        items ← copy_slice as_jobs jobs_cell copy_items l.items
        pure (record l { meta = meta; items = items })

      unfoldable pub deep_copy_job_list : Option Address → Cmd (Cell T) (Option Address)
      unfolding deep_copy_job_list_into
      deep_copy_job_list = deep_copy_by as_job_list job_list_cell deep_copy_job_list_into

      unfoldable pub deep_copy_job_list_object : Option Address → Cmd (Cell T) (Option Address)
      unfolding deep_copy_job_list
      deep_copy_job_list_object a = do
        c ← deep_copy_job_list a
        elim c [ some a' ↦ pure (some a') | none ↦ pure none ]
