-- ===== src/Copy/Layout.antt =====
-- How a program lays the resource out in its memory (api/v1beta1/lmevaljob_types.go): a pointer is an
-- address or nil; a slice has an array and a length, or is nil. What the elements of the secrets
-- point to is kept with them.
use fms_lm_eval_service.Prelude.{ℕ, length, ◌++◌, ◌≡◌, String, Bool, Option, none, some, List, []}
use fms_lm_eval_service.Prelude.Int.{ℤ}
use fms_lm_eval_service.Api.Core.{Time, TypeMeta}
use fms_lm_eval_service.Api.Job.{
  Arg, EnvSecret, FileSecret, JobState, Reason, LmEvalJobSpec, LmEvalJobStatus,
}
use fms_lm_eval_service.Copy.Memory.{Address, get_elem?, read_as}

-- The types of apimachinery as they lie in the memory: an object's metadata, a list's, and what the
-- cells behind these hold.
pub record Machinery : Type 1 where
  pub Meta : Type 0
  pub ListMeta : Type 0
  pub Other : Type 0

-- A slice that is not nil: the address of its array, which begins with the slice's first element, and
-- the number of its elements. The array may be longer, up to the slice's capacity.
pub record Slice : Type 0 where
  pub array : Address
  pub length : ℕ

-- The address of a slice's array.
abbrev pub array_of : Option Slice → Option Address
array_of none = none
array_of (some s) = some s.array

pub record StoredSpec : Type 0 where
  pub model : String
  pub model_args : Option Slice
  pub tasks : Option Slice
  pub num_few_shot : Option Address
  pub limit : String
  pub gen_args : Option Slice
  pub log_samples : Option Address
  pub env_secrets : Option Slice
  pub file_secrets : Option Slice

pub record StoredStatus : Type 0 where
  pub pod_name : String
  pub state : JobState
  pub reason : Reason
  pub message : String
  pub last_schedule_time : Option Address
  pub complete_time : Option Address
  pub results : String

pub record StoredJob (T : Machinery) : Type 0 where
  pub type_meta : TypeMeta
  pub meta : T.Meta
  pub spec : StoredSpec
  pub status : StoredStatus

pub record StoredJobList (T : Machinery) : Type 0 where
  pub type_meta : TypeMeta
  pub meta : T.ListMeta
  pub items : Option Slice

-- What lies at an address: a variable of one of these types, or an array.
pub data Cell (T : Machinery) : Type 0 where
  int_cell : ℤ → Cell T
  bool_cell : Bool → Cell T
  time_cell : Time → Cell T
  arg_cell : Arg → Cell T
  spec_cell : StoredSpec → Cell T
  status_cell : StoredStatus → Cell T
  job_cell : StoredJob T → Cell T
  job_list_cell : StoredJobList T → Cell T
  args_cell : List Arg → Cell T
  strings_cell : List String → Cell T
  env_secrets_cell : List EnvSecret → Cell T
  file_secrets_cell : List FileSecret → Cell T
  jobs_cell : List (StoredJob T) → Cell T
  other_cell : T.Other → Cell T

module _ {T : Machinery} where
  abbrev pub as_int : Cell T → Option ℤ
  as_int (int_cell x) = some x
  as_int _ = none

  abbrev pub as_bool : Cell T → Option Bool
  as_bool (bool_cell x) = some x
  as_bool _ = none

  abbrev pub as_time : Cell T → Option Time
  as_time (time_cell x) = some x
  as_time _ = none

  abbrev pub as_arg : Cell T → Option Arg
  as_arg (arg_cell x) = some x
  as_arg _ = none

  abbrev pub as_spec : Cell T → Option StoredSpec
  as_spec (spec_cell x) = some x
  as_spec _ = none

  abbrev pub as_status : Cell T → Option StoredStatus
  as_status (status_cell x) = some x
  as_status _ = none

  abbrev pub as_job : Cell T → Option (StoredJob T)
  as_job (job_cell x) = some x
  as_job _ = none

  abbrev pub as_job_list : Cell T → Option (StoredJobList T)
  as_job_list (job_list_cell x) = some x
  as_job_list _ = none

  abbrev pub as_args : Cell T → Option (List Arg)
  as_args (args_cell x) = some x
  as_args _ = none

  abbrev pub as_strings : Cell T → Option (List String)
  as_strings (strings_cell x) = some x
  as_strings _ = none

  abbrev pub as_env_secrets : Cell T → Option (List EnvSecret)
  as_env_secrets (env_secrets_cell x) = some x
  as_env_secrets _ = none

  abbrev pub as_file_secrets : Cell T → Option (List FileSecret)
  as_file_secrets (file_secrets_cell x) = some x
  as_file_secrets _ = none

  abbrev pub as_jobs : Cell T → Option (List (StoredJob T))
  as_jobs (jobs_cell x) = some x
  as_jobs _ = none

module _ {T : Machinery} (m : List (Cell T)) where
  -- What a cell holds, as `read` takes it.
  abbrev pub At : {V : Type 0} → (Cell T → Option V) → Address → V → Type 0
  At read a v = read_as read (get_elem? m a) ≡ some v

  -- A pointer stands for nothing or for what it points to.
  abbrev pub Points : {V : Type 0} → (Cell T → Option V) → Option Address → Option V → Type 0
  Points read none v = v ≡ none
  Points read (some a) none = ⊥
  Points read (some a) (some v) = At read a v

  -- The first elements of a slice's array, as many as the slice has.
  abbrev pub Elements : {V : Type 0} → (Cell T → Option (List V)) → Slice → List V → Type 0
  Elements {V} read s vs = (spare : List V) × At read s.array (vs ++ spare) × (s.length ≡ length vs)

  -- A slice stands for its elements, and nil for none.
  abbrev pub Lists : {V : Type 0} → (Cell T → Option (List V)) → Option Slice → List V → Type 0
  Lists read none vs = vs ≡ []
  Lists read (some s) vs = Elements read s vs

  -- A slice of which it matters whether it is nil.
  abbrev pub Slices :
      {V : Type 0} → (Cell T → Option (List V)) → Option Slice → Option (List V) → Type 0
  Slices read none vs = vs ≡ none
  Slices read (some s) none = ⊥
  Slices read (some s) (some vs) = Elements read s vs

  pub record IsSpec (s : StoredSpec) (v : LmEvalJobSpec) : Type 0 where
    pub model : s.model ≡ v.model
    pub model_args : Slices as_args s.model_args v.model_args
    pub tasks : Lists as_strings s.tasks v.tasks
    pub num_few_shot : Points as_int s.num_few_shot v.num_few_shot
    pub limit : s.limit ≡ v.limit
    pub gen_args : Slices as_args s.gen_args v.gen_args
    pub log_samples : Points as_bool s.log_samples v.log_samples
    pub env_secrets : Lists as_env_secrets s.env_secrets v.env_secrets
    pub file_secrets : Lists as_file_secrets s.file_secrets v.file_secrets

  pub record IsStatus (s : StoredStatus) (v : LmEvalJobStatus) : Type 0 where
    pub pod_name : s.pod_name ≡ v.pod_name
    pub state : s.state ≡ v.state
    pub reason : s.reason ≡ v.reason
    pub message : s.message ≡ v.message
    pub last_schedule_time : Points as_time s.last_schedule_time v.last_schedule_time
    pub complete_time : Points as_time s.complete_time v.complete_time
    pub results : s.results ≡ v.results
