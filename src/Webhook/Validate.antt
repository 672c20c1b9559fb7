-- ===== src/Webhook/Validate.antt =====
-- api/v1beta1/lmevaljob_webhook.go: ValidateCreate, ValidateUpdate, ValidateDelete, ValidateJob and
-- ValidateLimit. The floating-point numbers of 64 bits are a parameter.
use fms_lm_eval_service.Prelude.{
  String, ◌==◌, Bool, ◌&&◌, Option, none, some, List, [], ◌∷◌, ◌++◌, if◌then◌else◌,
}
use fms_lm_eval_service.Api.Core.{Error, Result, ok, err}
use fms_lm_eval_service.Api.Job.{LmEvalJob, group_name, kind_name}
use fms_lm_eval_service.Text.ParseInt.{parse_int, parsed, refused}

-- `field.Error` of the kind Invalid.
pub record FieldError : Type 0 where
  pub path : String
  pub value : String
  pub detail : String

pub record GroupKind : Type 0 where
  pub group : String
  pub kind : String

-- `strconv.ParseFloat(s, 64)`, the comparison and the two constants that the limit is compared
-- with; and `apierrors.NewInvalid`.
pub record Numbers : Type 1 where
  pub Float : Type 0
  pub parse_float : String → Result Float
  pub less : Float → Float → Bool
  pub at_most : Float → Float → Bool
  pub zero_float : Float
  pub one_float : Float
  pub new_invalid : GroupKind → String → List FieldError → Error

module _ (N : Numbers) where
  abbrev pub is_fraction : Result N.Float → Bool
  is_fraction (ok limit) = N.at_most limit N.one_float && N.less N.zero_float limit
  is_fraction (err _) = Bool.false

  abbrev invalid_limit : String → FieldError
  invalid_limit limit = record {
    path = "spec.limit";
    value = limit;
    detail = "must  be an integer or a float number between 0.0 to 1.0";
  }

  unfoldable pub validate_limit : String → Option FieldError
  validate_limit limit = if limit == "" then none else elim (parse_int limit) [
    | parsed _ ↦ none
    | refused _ ↦ if is_fraction (N.parse_float limit) then none else some (invalid_limit limit)
  ]

  abbrev pub errors_of : Option FieldError → List FieldError
  errors_of none = []
  errors_of (some e) = e ∷ []

  abbrev pub refusal : LmEvalJob → List FieldError → Option Error
  refusal job [] = none
  refusal job (e ∷ es) =
      some (N.new_invalid (record { group = group_name; kind = kind_name }) job.meta.name (e ∷ es))

  unfoldable pub validate_job : LmEvalJob → Option Error
  validate_job job = refusal job ([] ++ errors_of (validate_limit job.spec.limit))

  unfoldable pub validate_create : LmEvalJob → List String × Option Error
  validate_create job = ([], validate_job job)

  unfoldable pub validate_update : LmEvalJob → LmEvalJob → List String × Option Error
  validate_update old job = ([], validate_job job)

  unfoldable pub validate_delete : LmEvalJob → List String × Option Error
  validate_delete job = ([], none)
