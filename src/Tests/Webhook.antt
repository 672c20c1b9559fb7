-- ===== src/Tests/Webhook.antt =====
-- The theorem about the webhook at a job with a limit, with numbers in tenths for the floats.
use fms_lm_eval_service.Prelude.{
  String, eq_iff, [], ◌∷◌, All, inl, inr, Bool-cases, subst, sym, ℕ, ◌==◌, ◌≡◌, refl, ◌↔◌, ◌⊎◌,
  none, ltb, leb, if◌then◌else◌,
}
use fms_lm_eval_service.Prelude.Int.{pos, negsuc}
use fms_lm_eval_service.Api.Core.{errorf, ok, err}
use fms_lm_eval_service.Api.Job.{LmEvalJob}
use fms_lm_eval_service.Text.ParseInt.{
  parsed, refused, err_syntax, err_range, parse_int, parse_uint, parse_digits,
}
use fms_lm_eval_service.Text.IntLiteral.{IsInt64}
use fms_lm_eval_service.Text.Words.{plain_code, all_plain, IsPlain, IsWord, fields}
use fms_lm_eval_service.Pod.Command.{generate_args, eval_words}
use fms_lm_eval_service.Webhook.Validate.{
  Numbers, validate_limit, validate_job, validate_create, validate_update, validate_delete,
}
use fms_lm_eval_service.Webhook.Limit.{validate_create-words}
use fms_lm_eval_service.Webhook.Laws.{IsFraction, validate_iff}
use fms_lm_eval_service.Tests.Data.{job}

parse_int-runs :
    (parse_int "-9223372036854775808" ≡ parsed (negsuc 9223372036854775807))
    × (parse_int "9223372036854775808" ≡ refused err_range)
    × (parse_int "+12" ≡ parsed (pos 12))
    × (parse_int "0.5" ≡ refused err_syntax)
    × (parse_int "-" ≡ refused err_syntax)
unfolding parse_int parse_uint parse_digits
parse_int-runs = (refl, refl, refl, refl, refl)

abbrev tenths : Numbers
tenths = record {
  Float = ℕ;
  parse_float = λ s. if s == "0.5" then ok 5 else err (errorf "invalid syntax");
  less = ltb;
  at_most = leb;
  zero_float = 0;
  one_float = 10;
  new_invalid = λ kind name errors. errorf "invalid";
}

abbrev half : LmEvalJob
half = record job { spec = record job.spec { limit = "0.5" } }

validate_iff_example :
    ((validate_create tenths half).1 ≡ none
      ↔ ((half.spec.limit ≡ "") ⊎ IsInt64 half.spec.limit ⊎ IsFraction tenths (ok 5)))
    × ((validate_update tenths job half).1 ≡ (validate_create tenths half).1)
    × ((validate_delete tenths half).1 ≡ none)
validate_iff_example = validate_iff tenths job half

tenths-IsPlain : (s : String) (x : ℕ) → tenths.parse_float s ≡ ok x → IsPlain s
unfolding all_plain plain_code
tenths-IsPlain s x = elim (Bool-cases (s == "0.5")) [
  | inl e ↦ λ h. subst IsPlain (sym ((eq_iff s "0.5").0 e)) refl
  | inr e ↦ rw e (λ h. absurd cc)
]

validate_create-words_example :
    (script : String) × (generate_args half ≡ "sh" ∷ "-ec" ∷ script ∷ [])
    × (fields script ≡ eval_words half)
    × All IsWord (eval_words half)
unfolding validate_create validate_job validate_limit parse_int parse_uint parse_digits all_plain
    plain_code
validate_create-words_example =
    validate_create-words tenths tenths-IsPlain half refl (refl, tt) ((refl, refl), tt)
      ((refl, tt), (refl, tt)) tt
