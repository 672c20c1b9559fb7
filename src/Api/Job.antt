-- ===== src/Api/Job.antt =====
-- api/v1beta1/lmevaljob_types.go and groupversion_info.go: the LMEvalJob resource.
-- `JobState` and `Reason` are strings in the source, and any string is a value of them.
use fms_lm_eval_service.Prelude.{String, Bool, Option, List}
use fms_lm_eval_service.Prelude.Int.{ℤ}
use fms_lm_eval_service.Api.Core.{
  Time, TypeMeta, ObjectMeta, NamespacedName, SecretKeySelector, SecretVolumeSource,
}

abbrev pub JobState : Type 0
JobState = String

abbrev pub new_job_state : JobState
new_job_state = "New"

abbrev pub scheduled_job_state : JobState
scheduled_job_state = "Scheduled"

abbrev pub running_job_state : JobState
running_job_state = "Running"

abbrev pub complete_job_state : JobState
complete_job_state = "Complete"

abbrev pub cancelled_job_state : JobState
cancelled_job_state = "Cancelled"

abbrev pub Reason : Type 0
Reason = String

abbrev pub no_reason : Reason
no_reason = "NoReason"

abbrev pub succeed_reason : Reason
succeed_reason = "Succeeded"

abbrev pub failed_reason : Reason
failed_reason = "Failed"

abbrev pub cancelled_reason : Reason
cancelled_reason = "Cancelled"

abbrev pub group_name : String
group_name = "foundation-model-stack.github.com.github.com"

abbrev pub version : String
version = "v1beta1"

abbrev pub kind_name : String
kind_name = "LMEvalJob"

abbrev pub finalizer_name : String
finalizer_name = "lm-eval-job.foundation-model-stack.github.com.github.com/finalizer"

pub record Arg : Type 0 where
  pub name : String
  pub value : String

pub record EnvSecret : Type 0 where
  pub env : String
  pub secret_ref : Option SecretKeySelector
  pub secret : Option String

pub record FileSecret : Type 0 where
  pub secret_ref : SecretVolumeSource
  pub mount_path : String

pub record LmEvalJobSpec : Type 0 where
  pub model : String
  pub model_args : Option (List Arg)
  pub tasks : List String
  pub num_few_shot : Option ℤ
  pub limit : String
  pub gen_args : Option (List Arg)
  pub log_samples : Option Bool
  pub env_secrets : List EnvSecret
  pub file_secrets : List FileSecret

pub record LmEvalJobStatus : Type 0 where
  pub pod_name : String
  pub state : JobState
  pub reason : Reason
  pub message : String
  pub last_schedule_time : Option Time
  pub complete_time : Option Time
  pub results : String

pub record LmEvalJob : Type 0 where
  pub type_meta : TypeMeta
  pub meta : ObjectMeta
  pub spec : LmEvalJobSpec
  pub status : LmEvalJobStatus

-- The key under which the API server stores the job.
abbrev pub job_key : LmEvalJob → NamespacedName
job_key job = record { namespace = job.meta.namespace; name = job.meta.name }
