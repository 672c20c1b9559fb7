-- ===== src/Tests/Pod.antt =====
-- The theorems about the pod at a concrete job, and the pod's parts in a run.
use fms_lm_eval_service.Prelude.{
  String, ◌==◌, not, ◌≢◌, false≢true, Bool-cases, inl, inr, sym, ap, ◌∙◌, Option, Bool, true, false,
  ◌≡◌, refl, ◌↔◌, none, some, List, [], ◌∷◌, map, All, str_ne, eq_iff,
}
use fms_lm_eval_service.Api.Core.{EnvVar, Container, errorf, ok, err}
use fms_lm_eval_service.Text.Decimal.{format_nat}
use fms_lm_eval_service.Pod.Options.{tls_mode_mtls}
use fms_lm_eval_service.Text.Strings.{join}
use fms_lm_eval_service.Text.Words.{plain_code, all_plain, split_blanks, fields, IsWord}
use fms_lm_eval_service.Pod.Command.{
  eval_words, args_option, args_to_string, num_fewshot_option, limit_option, log_samples_option,
  generate_args, generate_cmd,
}
use fms_lm_eval_service.Pod.Script.{generate_args-words}
use fms_lm_eval_service.Pod.Volumes.{grpc_client_key_env, grpc_client_cert_env, grpc_server_ca_env}
use fms_lm_eval_service.Pod.Build.{security_context, pod_parts, create_pod}
use fms_lm_eval_service.Pod.SecretVolumes.{Distinct, volume_name, mount_name, has_label_chars}
use fms_lm_eval_service.Pod.Mounted.{IsMounted, create_pod-IsMounted}
use fms_lm_eval_service.Pod.Names.{create_pod-Distinct, create_pod-mounts, create_pod-label_names}
use fms_lm_eval_service.Pod.Tls.{
  Given, absent, plain, sourced, given, Shows, IsFilled, SeesEnv, create_pod-connect_mode,
}
use fms_lm_eval_service.Driver.Connect.{Transport, connect_mode}
use fms_lm_eval_service.Tests.Data.{reconciler, job}

generate_args_run :
    generate_args job
    ≡ "sh" ∷ "-ec"
      ∷ "python -m lm_eval --output_path /opt/app-root/src/output --model test --model_args arg1=value1 --tasks task1,task2"
      ∷ []
unfolding generate_args
generate_args_run = refl

generate_args-words_example :
    (script : String) × (generate_args job ≡ "sh" ∷ "-ec" ∷ script ∷ [])
    × (fields script ≡ eval_words job)
    × All IsWord (eval_words job)
unfolding all_plain plain_code
generate_args-words_example =
    generate_args-words job ((refl, tt), ((refl, refl), tt), ((refl, tt), (refl, tt)), refl, tt)

-- An empty list of arguments, unlike none, leaves a flag with no value: the next flag takes its place.
empty_args-run :
    let bare = record job { spec = record job.spec { model_args = some [] } } in
    fields (join (eval_words bare) " ")
    ≡ "python" ∷ "-m" ∷ "lm_eval" ∷ "--output_path" ∷ "/opt/app-root/src/output" ∷ "--model"
      ∷ "test" ∷ "--model_args" ∷ "--tasks" ∷ "task1,task2" ∷ []
unfolding eval_words join args_option args_to_string num_fewshot_option limit_option
    log_samples_option fields split_blanks
empty_args-run = refl

volumes_run :
    map volume_name (create_pod reconciler job).spec.volumes
    ≡ "shared" ∷ "client-cert" ∷ "server-cert" ∷ "secVol1" ∷ []
unfolding create_pod format_nat
volumes_run = refl

create_pod-Distinct_run : Distinct (map volume_name (create_pod reconciler job).spec.volumes)
create_pod-Distinct_run = create_pod-Distinct reconciler job

create_pod-IsMounted_example :
    Distinct (map volume_name (create_pod reconciler job).spec.volumes)
    × All
        (λ c.
          All
            (IsMounted (create_pod reconciler job).spec.volumes c.volume_mounts)
            job.spec.file_secrets)
        (create_pod reconciler job).spec.containers
create_pod-IsMounted_example = create_pod-IsMounted reconciler job

create_pod-mounts_run :
    All
      (λ c.
        map mount_name c.volume_mounts ≡ map volume_name (create_pod reconciler job).spec.volumes)
      (create_pod reconciler job).spec.containers
create_pod-mounts_run = create_pod-mounts reconciler job

create_pod-label_names_example :
    All (λ v. has_label_chars v.name ≡ true) (create_pod reconciler job).spec.volumes
    ↔ (job.spec.file_secrets ≡ [])
create_pod-label_names_example = create_pod-label_names reconciler job

abbrev value_of : Given → Option String
value_of absent = none
value_of (plain value) = some value
value_of sourced = some "hidden"

-- The environment of a process that has nothing but its container's.
abbrev pub environ : List EnvVar → String → Option String
environ env name = value_of (given name env)

abbrev is_filled : Option String → Bool
is_filled none = false
is_filled (some value) = not (value == "")

-- A driver that reads its settings from the environment, with no files and no network.
abbrev pub transport : List EnvVar → Transport
transport env = record {
  Certificate = Unit;
  Pool = Unit;
  Credentials = Unit;
  Connection = Unit;
  is_set = λ name. is_filled (environ env name);
  get_string = λ name. "";
  load_key_pair = λ cert key. err (errorf "no such file");
  read_file = λ path. err (errorf "no such file");
  pool_of_pem = λ pem. none;
  new_tls = λ name cert ca. tt;
  tls_from_file = λ path name. err (errorf "no such file");
  insecure = tt;
  new_client = λ addr creds. ok tt;
  quote = λ text. text;
}

shows : (g : Given) → Shows (value_of g) g
shows absent = refl
shows (plain value) = refl
shows sourced = tt

not_empty : (value : String) → not (value == "") ≡ true → value ≢ ""
not_empty value h e = false≢true (ap not (sym ((eq_iff value "").1 e)) ∙ h)

is_filled-IsFilled : (found : Option String) → (is_filled found ≡ true) ↔ IsFilled found
is_filled-IsFilled none = (λ h. absurd cc, λ h. absurd cc)
is_filled-IsFilled (some value) = (
  λ h. (value, refl, not_empty value h),
  λ h. elim (Bool-cases (value == "")) [
    | inl e ↦ absurd (h.2 (cc (h.1, (eq_iff value "").0 e)))
    | inr ne ↦ rw ne refl
  ],
)

pub transport-SeesEnv : (env : List EnvVar) → SeesEnv (transport env) (environ env) env
transport-SeesEnv env = record {
  shown = λ name tls. shows (given name env);
  is_set = λ name tls. is_filled-IsFilled (environ env name);
}

abbrev pub pod_main : Container
pod_main = record {
  name = "main";
  image = reconciler.options.pod_image;
  image_pull_policy = reconciler.options.image_pull_policy;
  command = generate_cmd reconciler job;
  args = generate_args job;
  env = (pod_parts reconciler job).env_vars;
  security_context = some security_context;
  volume_mounts = (pod_parts reconciler job).volume_mounts;
}

create_pod-connect_mode_run :
    connect_mode (transport (pod_parts reconciler job).env_vars) ≡ tls_mode_mtls
unfolding create_pod
create_pod-connect_mode_run =
    create_pod-connect_mode reconciler job (transport (pod_parts reconciler job).env_vars)
      (environ (pod_parts reconciler job).env_vars) pod_main refl
      (
        (
          str_ne "my_env" grpc_client_key_env refl,
          str_ne "my_env" grpc_client_cert_env refl,
          str_ne "my_env" grpc_server_ca_env refl,
        ),
        tt,
      )
      (transport-SeesEnv (pod_parts reconciler job).env_vars)
