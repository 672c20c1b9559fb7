-- ===== src/Api/Core.antt =====
-- The fields of the Kubernetes types (core/v1, meta/v1, controller-runtime) that the code reads or
-- fills. A pointer is an `Option`; a slice is an `Option` of a list only where the code tests it
-- for nil. Times are nanoseconds from the zero time, durations nanoseconds.
use fms_lm_eval_service.Prelude.{
  ℕ, String, Bool, true, Option, none, some, List, nat_eq, ◌≡◌, refl, ◌⊎◌, inl, inr,
}
use fms_lm_eval_service.Prelude.Int.{ℤ}

abbrev pub Time : Type 0
Time = ℕ

-- `(*Time).IsZero`: nil, or the zero time.
abbrev pub is_zero_time : Option Time → Bool
is_zero_time none = true
is_zero_time (some t) = nat_eq t 0

abbrev pub Duration : Type 0
Duration = ℤ

-- An `error` value: what `Error()` prints, and the status reason that the API machinery reads from
-- it ("" for an error of another kind).
pub record Error : Type 0 where
  pub message : String
  pub status_reason : String

abbrev pub errorf : String → Error
errorf message = record { message = message; status_reason = "" }

pub data Result {ℓ} (A : Type ℓ) : Type ℓ where
  ok : A → Result A
  err : Error → Result A

pub Result-cases {ℓ} :
    {A : Type ℓ} (r : Result A) → ((a : A) × (r ≡ ok a)) ⊎ ((e : Error) × (r ≡ err e))
Result-cases (ok a) = inl (a, refl)
Result-cases (err e) = inr (e, refl)

pub record NamespacedName : Type 0 where
  pub namespace : String
  pub name : String

pub record OwnerReference : Type 0 where
  pub api_version : String
  pub kind : String
  pub name : String
  pub controller : Option Bool
  pub uid : String

pub record TypeMeta : Type 0 where
  pub kind : String
  pub api_version : String

pub record ObjectMeta : Type 0 where
  pub name : String
  pub namespace : String
  pub uid : String
  pub labels : List (String × String)
  pub finalizers : List String
  pub owner_references : List OwnerReference
  pub deletion_timestamp : Option Time

pub record SecretKeySelector : Type 0 where
  pub name : String
  pub key : String
  pub optional : Option Bool

pub record EnvVarSource : Type 0 where
  pub secret_key_ref : Option SecretKeySelector

pub record EnvVar : Type 0 where
  pub name : String
  pub value : String
  pub value_from : Option EnvVarSource

pub record KeyToPath : Type 0 where
  pub key : String
  pub path : String

pub record SecretVolumeSource : Type 0 where
  pub secret_name : String
  pub items : List KeyToPath
  pub default_mode : Option ℕ
  pub optional : Option Bool

pub record EmptyDirVolumeSource : Type 0 where
  pub medium : String

pub record VolumeSource : Type 0 where
  pub empty_dir : Option EmptyDirVolumeSource
  pub secret : Option SecretVolumeSource

pub record Volume : Type 0 where
  pub name : String
  pub source : VolumeSource

pub record VolumeMount : Type 0 where
  pub name : String
  pub mount_path : String
  pub read_only : Bool

pub record Capabilities : Type 0 where
  pub dropped : List String

pub record SecurityContext : Type 0 where
  pub allow_privilege_escalation : Option Bool
  pub run_as_user : Option ℕ
  pub capabilities : Option Capabilities

pub record PodSecurityContext : Type 0 where
  pub run_as_non_root : Option Bool
  pub seccomp_profile : Option String

pub record Container : Type 0 where
  pub name : String
  pub image : String
  pub image_pull_policy : String
  pub command : List String
  pub args : List String
  pub env : List EnvVar
  pub security_context : Option SecurityContext
  pub volume_mounts : List VolumeMount

pub record PodSpec : Type 0 where
  pub init_containers : List Container
  pub containers : List Container
  pub security_context : Option PodSecurityContext
  pub volumes : List Volume
  pub restart_policy : String

pub record ContainerStateTerminated : Type 0 where
  pub exit_code : ℤ
  pub reason : String

pub record ContainerState : Type 0 where
  pub terminated : Option ContainerStateTerminated

pub record ContainerStatus : Type 0 where
  pub name : String
  pub state : ContainerState

pub record PodStatus : Type 0 where
  pub container_statuses : Option (List ContainerStatus)

pub record Pod : Type 0 where
  pub type_meta : TypeMeta
  pub meta : ObjectMeta
  pub spec : PodSpec
  pub status : PodStatus

-- An event as `Recorder.Event` takes it.
pub record Event : Type 0 where
  pub event_type : String
  pub reason : String
  pub message : String

-- `ctrl.Result`
pub record ReconcileResult : Type 0 where
  pub requeue : Bool
  pub requeue_after : Duration
