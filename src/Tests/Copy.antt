-- ===== src/Tests/Copy.antt =====
-- The theorems about the deep copies at a memory that holds a job, and a list of it.
use fms_lm_eval_service.Prelude.{
  ◌≡◌, refl, subst, String, none, some, List, [], ◌∷◌, ◌++◌, inl, inr, All,
}
use fms_lm_eval_service.Api.Core.{ObjectMeta, Time}
use fms_lm_eval_service.Api.Job.{Arg, EnvSecret, FileSecret}
use fms_lm_eval_service.Copy.Memory.{
  Address, Cmd, pure, ◌>>=◌, load, alloc, set, take, get_elem?, Grows,
}
use fms_lm_eval_service.Copy.Layout.{
  Machinery, Cell, StoredJob, StoredJobList, args_cell, strings_cell, env_secrets_cell,
  file_secrets_cell, job_cell, jobs_cell, job_list_cell, time_cell, as_job, as_job_list, as_time,
  as_env_secrets, as_file_secrets, At,
}
use fms_lm_eval_service.Copy.Machinery.{IsMachinery}
use fms_lm_eval_service.Copy.Copied.{
  Copied, Copied-pure, Copied-bind, Copied-weaken, Fresh, Fresh-Grows,
}
use fms_lm_eval_service.Copy.Generated.{
  deep_copy_spec_into, deep_copy_status_into, deep_copy_job_into, deep_copy_job, deep_copy_job_list,
}
use fms_lm_eval_service.Copy.Fields.{alloc-Copied, load-Copied}
use fms_lm_eval_service.Copy.Job.{IsStoredJob, job_owned, deep_copy_job-copies}
use fms_lm_eval_service.Copy.JobList.{CopiesJobList, deep_copy_job_list-copies}
use fms_lm_eval_service.Copy.Access.{seen_after}
use fms_lm_eval_service.Copy.Sharing.{deep_copy_job-separate, deep_copy_job-shares}
use fms_lm_eval_service.Tests.Data.{job}

-- The metadata point to nothing.
abbrev flat : Machinery
flat = record { Meta = ObjectMeta; ListMeta = String; Other = Unit }

abbrev copy_time : Address → Cmd (Cell flat) Address
copy_time a = do t ← load as_time a; alloc (time_cell t)

time_copied :
    (m : List (Cell flat)) (a : Address) (t : Time)
    → At m as_time a t
    → Copied m (copy_time a) (λ m' a'. At m' as_time a' t × Fresh m (some a'))
time_copied m a t h =
    Copied-bind m (load as_time a) (λ t. alloc (time_cell t)) (λ m' x. x ≡ t) _
      (load-Copied as_time m a t h)
      (λ x m1 g1 same.
        Copied-weaken m1 (alloc (time_cell x)) _ _ (alloc-Copied as_time time_cell (λ y. refl) m1 x)
          (λ m' a' g' made.
            (subst (λ z. At m' as_time a' z) same made.0, Fresh-Grows m m1 (some a') g1 made.1)))

abbrev flat_laws : IsMachinery flat copy_time pure pure
flat_laws = record {
  ListView = String;
  IsMeta = λ m x v. x ≡ v;
  IsListMeta = λ m x v. x ≡ v;
  meta_owned = λ m x. [];
  list_meta_owned = λ m x. [];
  IsMeta_grows = λ m m' x v g h. h;
  IsListMeta_grows = λ m m' x v g h. h;
  meta_owned_grows = λ m m' x v g h. refl;
  list_meta_owned_grows = λ m m' x v g h. refl;
  time_copied = time_copied;
  meta_copied = λ m x v h. Copied-pure m x (λ m' x'. (x' ≡ v) × Unit {0}) (h, tt);
  list_meta_copied = λ m x v h. Copied-pure m x (λ m' x'. (x' ≡ v) × Unit {0}) (h, tt);
}

abbrev stored : StoredJob flat
stored = record {
  type_meta = job.type_meta;
  meta = job.meta;
  spec = record {
    model = "test";
    model_args = some (record { array = 0; length = 1 });
    tasks = some (record { array = 1; length = 2 });
    num_few_shot = none;
    limit = "";
    gen_args = none;
    log_samples = none;
    env_secrets = some (record { array = 2; length = 1 });
    file_secrets = some (record { array = 3; length = 1 });
  };
  status = record {
    pod_name = "";
    state = "";
    reason = "";
    message = "";
    last_schedule_time = none;
    complete_time = none;
    results = "";
  };
}

abbrev args : List Arg
args = record { name = "arg1"; value = "value1" } ∷ []

abbrev other_env : EnvSecret
other_env = record { env = "other_env"; secret_ref = none; secret = some "bye" }

abbrev other_file : FileSecret
other_file = record {
  secret_ref = record { secret_name = "other"; items = []; default_mode = none; optional = none };
  mount_path = "/other";
}

abbrev copied : StoredJob flat
copied = record stored {
  spec = record stored.spec {
    model_args = some (record { array = 7; length = 1 });
    tasks = some (record { array = 8; length = 2 });
  };
}

abbrev list : StoredJobList flat
list = record {
  type_meta = job.type_meta;
  meta = "7";
  items = some (record { array = 5; length = 1 });
}

-- The job's arrays, the job, an array of it, and a list with this array.
abbrev before : List (Cell flat)
before =
    args_cell args
    ∷ strings_cell job.spec.tasks
    ∷ env_secrets_cell job.spec.env_secrets
    ∷ file_secrets_cell job.spec.file_secrets
    ∷ job_cell stored
    ∷ jobs_cell (stored ∷ [])
    ∷ job_list_cell list
    ∷ []

abbrev behind : List (Cell flat)
behind = before ++ (args_cell args ∷ strings_cell job.spec.tasks ∷ job_cell copied ∷ [])

stored-IsStoredJob : IsStoredJob flat_laws before stored job
unfolding get_elem?
stored-IsStoredJob = record {
  type_meta = refl;
  meta = refl;
  spec = record {
    model = refl;
    model_args = ([], refl, refl);
    tasks = ([], refl, refl);
    num_few_shot = refl;
    limit = refl;
    gen_args = refl;
    log_samples = refl;
    env_secrets = ([], refl, refl);
    file_secrets = ([], refl, refl);
  };
  status = record {
    pod_name = refl;
    state = refl;
    reason = refl;
    message = refl;
    last_schedule_time = refl;
    complete_time = refl;
    results = refl;
  };
}

deep_copy_job-runs : deep_copy_job copy_time pure pure (some 4) before ≡ some (some 9, behind)
unfolding deep_copy_job deep_copy_job_into deep_copy_spec_into deep_copy_status_into load get_elem?
    take
deep_copy_job-runs = refl

deep_copy_job-copies_example :
    (a' : Address) × (j' : StoredJob flat) × (m' : List (Cell flat)) × (deep_copy_job copy_time pure
        pure
        (some 4)
        before
      ≡ some (some a', m'))
    × Grows before m'
    × At m' as_job a' j'
    × IsStoredJob flat_laws m' j' job
    × All (Fresh before) (some a' ∷ job_owned flat_laws m' j')
    × (j'.spec.env_secrets ≡ stored.spec.env_secrets)
    × (j'.spec.file_secrets ≡ stored.spec.file_secrets)
unfolding get_elem?
deep_copy_job-copies_example =
    deep_copy_job-copies flat_laws before 4 stored job refl stored-IsStoredJob

-- A task is written to the copy.
deep_copy_job-separate_example :
    At (set behind 8 (strings_cell ("other" ∷ []))) as_job 4 stored
    × IsStoredJob flat_laws (set behind 8 (strings_cell ("other" ∷ []))) stored job
unfolding get_elem?
deep_copy_job-separate_example =
    deep_copy_job-separate flat_laws before behind 4 9 stored copied job refl stored-IsStoredJob
      deep_copy_job-runs refl 8 (strings_cell ("other" ∷ [])) (inr (inr (inl refl)))

-- The first secret for the environment and the first for files are replaced in the copy.
deep_copy_job-shares_example :
    (seen_after as_env_secrets env_secrets_cell copied.spec.env_secrets 0 other_env
        stored.spec.env_secrets behind
      ≡ some (other_env ∷ []))
    × (seen_after as_file_secrets file_secrets_cell copied.spec.file_secrets 0 other_file
          stored.spec.file_secrets behind
        ≡ some (other_file ∷ []))
unfolding get_elem? set
deep_copy_job-shares_example =
    deep_copy_job-shares flat_laws before behind 4 9 stored copied job refl stored-IsStoredJob
      deep_copy_job-runs refl 0 other_env other_file

deep_copy_job_list-copies_example :
    (a' : Address) × (l' : StoredJobList flat) × (m' : List (Cell flat)) × (deep_copy_job_list
        copy_time pure pure
        (some 6)
        before
      ≡ some (some a', m'))
    × Grows before m'
    × At m' as_job_list a' l'
    × Fresh before (some a')
    × CopiesJobList flat_laws before list (stored ∷ []) "7" (job ∷ []) m' l'
unfolding get_elem?
deep_copy_job_list-copies_example =
    deep_copy_job_list-copies flat_laws before 6 list (stored ∷ []) "7" (job ∷ []) refl
      (record { meta = refl; array = ([], refl, refl); items = (stored-IsStoredJob, tt) })
