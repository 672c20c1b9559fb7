-- ===== src/Pod/Command.antt =====
-- backend/controller/lmevaljob_controller.go: generateArgs, generateCmd and argsToString.
use fms_lm_eval_service.Prelude.{
  String, ◌<>◌, ◌==◌, Bool, true, Option, none, some, List, [], ◌∷◌, ◌++◌, map, if◌then◌else◌,
}
use fms_lm_eval_service.Prelude.Int.{ℤ}
use fms_lm_eval_service.Text.Decimal.{itoa}
use fms_lm_eval_service.Text.Strings.{join}
use fms_lm_eval_service.Api.Job.{Arg, LmEvalJob}
use fms_lm_eval_service.Pod.Options.{Reconciler, dest_driver_path}

-- One round of the loop of `argsToString`.
abbrev pub equal_form : Arg → String
equal_form arg = arg.name <> "=" <> arg.value

-- `argsToString` at a slice that is not nil, the only one it is called at.
unfoldable pub args_to_string : List Arg → String
unfolding join
args_to_string args = join (map equal_form args) ","

-- `--model_args` and `--gen_kwargs`, if the slice is not nil.
unfoldable pub args_option : String → Option (List Arg) → List String
unfolding args_to_string
args_option flag none = []
args_option flag (some args) = flag ∷ args_to_string args ∷ []

unfoldable pub num_fewshot_option : Option ℤ → List String
unfolding itoa
num_fewshot_option none = []
num_fewshot_option (some n) = "--num_fewshot" ∷ itoa n ∷ []

unfoldable pub limit_option : String → List String
limit_option limit = if limit == "" then [] else "--limit" ∷ limit ∷ []

unfoldable pub log_samples_option : Option Bool → List String
log_samples_option (some true) = "--log_samples" ∷ []
log_samples_option _ = []

-- The words that `generateArgs` appends to `cmds`, in its order.
unfoldable pub eval_words : LmEvalJob → List String
unfolding join args_option num_fewshot_option limit_option log_samples_option
eval_words job =
    ("python" ∷ "-m" ∷ "lm_eval" ∷ "--output_path" ∷ "/opt/app-root/src/output" ∷ [])
    ++ ("--model" ∷ model ∷ [])
    ++ args_option "--model_args" model_args
    ++ ("--tasks" ∷ join tasks "," ∷ [])
    ++ num_fewshot_option num_few_shot
    ++ limit_option limit
    ++ args_option "--gen_kwargs" gen_args
    ++ log_samples_option log_samples
  where
    open job use {spec.{model, model_args, tasks, num_few_shot, limit, gen_args, log_samples}}

-- `generateArgs` at a job that is not nil.
unfoldable pub generate_args : LmEvalJob → List String
unfolding eval_words
generate_args job = "sh" ∷ "-ec" ∷ join (eval_words job) " " ∷ []

-- `generateCmd` at a job that is not nil.
unfoldable pub generate_cmd : Reconciler → LmEvalJob → List String
unfolding itoa
generate_cmd r job =
    dest_driver_path
    ∷ "--job-namespace"
    ∷ job.meta.namespace
    ∷ "--job-name"
    ∷ job.meta.name
    ∷ "--grpc-service"
    ∷ (r.options.grpc_service <> "." <> r.namespace <> ".svc")
    ∷ "--grpc-port"
    ∷ itoa r.options.grpc_port
    ∷ "--output-path"
    ∷ "/opt/app-root/src/output"
    ∷ "--"
    ∷ []
