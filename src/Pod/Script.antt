-- ===== src/Pod/Script.antt =====
-- The script that generateArgs (backend/controller/lmevaljob_controller.go) joins with blanks.
use Prim.Native.String.{◌∷◌ as ◌◂◌}
use fms_lm_eval_service.Prelude.{
  String, ◌<>◌, ◌==◌, ◌≡◌, refl, Bool, true, false, Bool-cases, Option, none, some, List, [], ◌∷◌,
  ◌++◌, map, inl, inr, All, All-append,
}
use fms_lm_eval_service.Prelude.Int.{ℤ}
use fms_lm_eval_service.Text.Strings.{join}
use fms_lm_eval_service.Text.Words.{
  plain_code, all_plain, IsPlain, IsWord, fields, IsPlain-append, IsPlain-join, IsSolid-append,
  IsSolid-append_right, IsSolid-join, itoa-IsWord, fields-join,
}
use fms_lm_eval_service.Api.Job.{Arg, LmEvalJob}
use fms_lm_eval_service.Pod.Command.{
  equal_form, args_to_string, args_option, num_fewshot_option, limit_option, log_samples_option,
  eval_words, generate_args,
}

abbrev pub PlainArg : Arg → Type 0
PlainArg a = IsPlain a.name × IsPlain a.value

-- No slice, or one with an argument.
abbrev pub PlainArgs : Option (List Arg) → Type 0
PlainArgs none = Unit
PlainArgs (some []) = ⊥
PlainArgs (some (a ∷ args)) = PlainArg a × All PlainArg args

abbrev pub PlainTasks : List String → Type 0
PlainTasks [] = ⊥
PlainTasks (t ∷ ts) = IsWord t × All IsPlain ts

-- The texts of the job have plain characters only, and none is missing.
abbrev pub PlainTexts : LmEvalJob → Type 0
PlainTexts job =
    IsWord job.spec.model
    × PlainArgs job.spec.model_args
    × PlainTasks job.spec.tasks
    × IsPlain job.spec.limit
    × PlainArgs job.spec.gen_args

equal_form-IsPlain : (a : Arg) → PlainArg a → IsPlain (equal_form a)
unfolding all_plain plain_code
equal_form-IsPlain a h = IsPlain-append a.name _ h.0 (IsPlain-append "=" a.value refl h.1)

equal_forms-IsPlain : (args : List Arg) → All PlainArg args → All IsPlain (map equal_form args)
equal_forms-IsPlain [] h = tt
equal_forms-IsPlain (a ∷ args) h = (equal_form-IsPlain a h.0, equal_forms-IsPlain args h.1)

args_to_string-IsWord :
    (a : Arg) (args : List Arg)
    → PlainArg a
    → All PlainArg args
    → IsWord (args_to_string (a ∷ args))
unfolding args_to_string all_plain plain_code
args_to_string-IsWord a args h hs = (
  IsPlain-join (map equal_form (a ∷ args)) "," (equal_forms-IsPlain (a ∷ args) (h, hs)) refl,
  IsSolid-join (equal_form a) (map equal_form args) ","
      (IsSolid-append_right a.name ("=" <> a.value) (IsSolid-append "=" a.value tt)),
)

args_option-IsWord :
    (flag : String) (args : Option (List Arg))
    → IsWord flag
    → PlainArgs args
    → All IsWord (args_option flag args)
unfolding args_option
args_option-IsWord flag none f h = tt
args_option-IsWord flag (some []) f h = absurd h
args_option-IsWord flag (some (a ∷ args)) f h = (f, (args_to_string-IsWord a args h.0 h.1, tt))

join_tasks-IsWord : (tasks : List String) → PlainTasks tasks → IsWord (join tasks ",")
unfolding all_plain plain_code
join_tasks-IsWord [] h = absurd h
join_tasks-IsWord (t ∷ ts) h =
    (IsPlain-join (t ∷ ts) "," (h.0.0, h.1) refl, IsSolid-join t ts "," h.0.1)

num_fewshot_option-IsWord : (n : Option ℤ) → All IsWord (num_fewshot_option n)
unfolding num_fewshot_option all_plain plain_code
num_fewshot_option-IsWord none = tt
num_fewshot_option-IsWord (some n) = ((refl, tt), (itoa-IsWord n, tt))

limit_option-IsWord : (limit : String) → IsPlain limit → All IsWord (limit_option limit)
unfolding limit_option all_plain plain_code
limit_option-IsWord String.[] h = tt
limit_option-IsWord (String.◌∷◌ c s) h = elim (Bool-cases ((c ◂ s) == "")) [
  | inl none_left ↦ rw none_left tt
  | inr solid ↦ rw solid ((refl, tt), ((h, tt), tt))
]

log_samples_option-IsWord : (b : Option Bool) → All IsWord (log_samples_option b)
unfolding log_samples_option all_plain plain_code
log_samples_option-IsWord none = tt
log_samples_option-IsWord (some false) = tt
log_samples_option-IsWord (some true) = ((refl, tt), tt)

abbrev first_words : List String
first_words = "python" ∷ "-m" ∷ "lm_eval" ∷ "--output_path" ∷ "/opt/app-root/src/output" ∷ []

first_words-IsWord : All IsWord first_words
unfolding all_plain plain_code
first_words-IsWord = ((refl, tt), ((refl, tt), ((refl, tt), ((refl, tt), ((refl, tt), tt)))))

eval_words-IsWord : (job : LmEvalJob) → PlainTexts job → All IsWord (eval_words job)
unfolding eval_words all_plain plain_code
eval_words-IsWord job (model, model_args, tasks, limit, gen_args) =
    let spec = job.spec in
    let first = first_words ++ ("--model" ∷ spec.model ∷ []) in
    let second = first ++ args_option "--model_args" spec.model_args in
    let third = second ++ ("--tasks" ∷ join spec.tasks "," ∷ []) in
    let fourth = third ++ num_fewshot_option spec.num_few_shot in
    let fifth = fourth ++ limit_option spec.limit in
    let sixth = fifth ++ args_option "--gen_kwargs" spec.gen_args in
    All-append IsWord sixth _
      (All-append IsWord fifth _
        (All-append IsWord fourth _
          (All-append IsWord third _
            (All-append IsWord second ("--tasks" ∷ join spec.tasks "," ∷ [])
              (All-append IsWord first _
                (All-append IsWord first_words ("--model" ∷ spec.model ∷ []) first_words-IsWord
                  ((refl, tt), (model, tt)))
                (args_option-IsWord "--model_args" spec.model_args (refl, tt) model_args))
              ((refl, tt), (join_tasks-IsWord spec.tasks tasks, tt)))
            (num_fewshot_option-IsWord spec.num_few_shot))
          (limit_option-IsWord spec.limit limit))
        (args_option-IsWord "--gen_kwargs" spec.gen_args (refl, tt) gen_args))
      (log_samples_option-IsWord spec.log_samples)

-- If the texts of a job have plain characters only and none is missing, the main container runs
-- `sh -ec` with a script whose words, between the blanks, are the words that were appended to it, and
-- these have plain characters only.
pub generate_args-words :
    (job : LmEvalJob)
    → PlainTexts job
    → (script : String) × (generate_args job ≡ "sh" ∷ "-ec" ∷ script ∷ [])
      × (fields script ≡ eval_words job)
      × All IsWord (eval_words job)
unfolding generate_args
generate_args-words job plain =
    let words = eval_words-IsWord job plain in
    (join (eval_words job) " ", refl, fields-join (eval_words job) words, words)
