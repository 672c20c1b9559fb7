-- ===== src/Webhook/Limit.antt =====
-- The limit that the webhook admits (api/v1beta1/lmevaljob_webhook.go), in the script that
-- generateArgs writes (backend/controller/lmevaljob_controller.go).
use fms_lm_eval_service.Prelude.{
  ℕ, String, code, ◌≡◌, refl, subst, sym, some, none, inl, inr, [], ◌∷◌, All, arith, ◌+◌, ◌-◌, ◌*◌,
}
use fms_lm_eval_service.Api.Core.{ok, Result-cases}
use fms_lm_eval_service.Api.Job.{LmEvalJob}
use fms_lm_eval_service.Text.Decimal.{scan_digits}
use fms_lm_eval_service.Text.IntLiteral.{IsInt64}
use fms_lm_eval_service.Text.Words.{plain_code, all_plain, IsPlain, IsWord, fields}
use fms_lm_eval_service.Pod.Command.{eval_words, generate_args}
use fms_lm_eval_service.Pod.Script.{PlainArgs, PlainTasks, generate_args-words}
use fms_lm_eval_service.Webhook.Validate.{Numbers, validate_create}
use fms_lm_eval_service.Webhook.Laws.{IsFraction, validate_iff}

digits-IsPlain : (s : String) (n m : ℕ) → scan_digits s n ≡ some m → IsPlain s
unfolding scan_digits all_plain plain_code
digits-IsPlain String.[] n m e = refl
digits-IsPlain (String.◌∷◌ c s) n m e =
    ground (arith, digits-IsPlain s (n * 10 + (code c - b'0')) m)

int-IsPlain : (s : String) → IsInt64 s → IsPlain s
unfolding all_plain plain_code
int-IsPlain String.[] h = absurd h
int-IsPlain (String.◌∷◌ c s) (inl (minus, (n, numeral, range))) =
    ground (arith, digits-IsPlain s 0 n numeral.1)
int-IsPlain (String.◌∷◌ c s) (inr (inl (plus, (n, numeral, range)))) =
    ground (arith, digits-IsPlain s 0 n numeral.1)
int-IsPlain (String.◌∷◌ c s) (inr (inr (n, numeral, range))) = digits-IsPlain _ 0 n numeral.1

module _ (N : Numbers)
    (float_plain : (s : String) (x : N.Float) → N.parse_float s ≡ ok x → IsPlain s) where
  admitted-IsPlain : (job : LmEvalJob) → (validate_create N job).1 ≡ none → IsPlain job.spec.limit
  admitted-IsPlain job h = elim ((validate_iff N job job).0.0 h) [
    | inl e ↦ subst IsPlain (sym e) unfold all_plain in refl
    | inr (inl int) ↦ int-IsPlain job.spec.limit int
    | inr (inr fraction) ↦ elim (Result-cases (N.parse_float job.spec.limit)) [
      | inl (x, e) ↦ float_plain job.spec.limit x e
      | inr (e, refused) ↦ absurd (subst (IsFraction N) refused fraction)
    ]
  ]

  -- If only texts of plain characters are read as floating-point numbers, the webhook admits a job,
  -- and the job's other texts have plain characters only and none of these is missing, then the main
  -- container runs `sh -ec` with a script whose words, between the blanks, are the words that were
  -- appended to it, and these have plain characters only, whatever the limit is.
  pub validate_create-words :
      (job : LmEvalJob)
      → (validate_create N job).1 ≡ none
      → IsWord job.spec.model
      → PlainArgs job.spec.model_args
      → PlainTasks job.spec.tasks
      → PlainArgs job.spec.gen_args
      → (script : String) × (generate_args job ≡ "sh" ∷ "-ec" ∷ script ∷ [])
        × (fields script ≡ eval_words job)
        × All IsWord (eval_words job)
  validate_create-words job h model model_args tasks gen_args =
      generate_args-words job (model, model_args, tasks, admitted-IsPlain job h, gen_args)
