-- ===== src/Driver/CommandLine.antt =====
-- The command line that generateCmd and generateArgs (backend/controller/lmevaljob_controller.go)
-- write, read by cmd/driver/main.go.
use fms_lm_eval_service.Prelude.{
  String, arith, ap, ◌∙◌, sym, ◌<>◌, ◌≡◌, refl, Option, List, [], ◌∷◌, ◌++◌,
}
use fms_lm_eval_service.Api.Core.{Error, Container, ok}
use fms_lm_eval_service.Api.Job.{LmEvalJob, job_key}
use fms_lm_eval_service.Text.ReadBack.{InInt64, parse_int_0-itoa}
use fms_lm_eval_service.Text.Flag.{stopped, parse_flags, parse_loop, word_of, cut_value}
use fms_lm_eval_service.Pod.Options.{Reconciler}
use fms_lm_eval_service.Pod.Command.{generate_cmd, generate_args}
use fms_lm_eval_service.Text.Strings.{IsBlank}
use fms_lm_eval_service.Pod.Build.{create_pod}
use fms_lm_eval_service.Cluster.Interface.{Kube, IsLawful, World}
use fms_lm_eval_service.Reconcile.Base.{set_status}
use fms_lm_eval_service.Driver.Connect.{DriverOption, Transport}
use fms_lm_eval_service.Driver.Run.{Host, Client, returned, exec, outcome, dump_logs}
use fms_lm_eval_service.Driver.Report.{served, verdict}
use fms_lm_eval_service.Driver.Main.{Flags, Binaries, exited, driver_option, main}
use fms_lm_eval_service.Driver.Exit.{main-stored}
use fms_lm_eval_service.Text.LogFlag.{LogFlag}
use fms_lm_eval_service.Driver.Process.{driver_flags, parse_command_line, main_after, process}

-- The flags that the controller means.
abbrev pub meant : Reconciler → LmEvalJob → Flags
meant r job = record {
  copy = "";
  job_namespace = job.meta.namespace;
  job_name = job.meta.name;
  grpc_service = r.options.grpc_service <> "." <> r.namespace <> ".svc";
  grpc_port = r.options.grpc_port;
  output_path = "/opt/app-root/src/output";
  args = [];
}

-- The arguments of a command behind its program.
abbrev pub arguments : List String → List String
arguments [] = []
arguments (program ∷ args) = args

-- If the port is in the range of an int, the driver, started with the command that the controller
-- writes and with any arguments behind it, reads the job's namespace and name, the service, the port
-- and the output path that the controller means, and takes the arguments for the user's program.
pub parse-generate_cmd :
    (zap : String → Option LogFlag) (r : Reconciler) (job : LmEvalJob) (args : List String)
    → InInt64 r.options.grpc_port
    → parse_command_line zap (arguments (generate_cmd r job) ++ args) ≡ stopped (meant r job) args
unfolding parse_command_line parse_flags parse_loop word_of cut_value driver_flags generate_cmd
parse-generate_cmd zap r job args h = ground (arith, parse_int_0-itoa r.options.grpc_port h)

-- The driver's options in the pod of a job.
abbrev pub pod_option : Reconciler → LmEvalJob → DriverOption
pod_option r job = driver_option (record (meant r job) { args = generate_args job })

-- The program of a container's command; "" for no command.
abbrev pub program : List String → String
program [] = ""
program (path ∷ args) = path

-- The arguments of a container's process: those of its command, and its own.
abbrev pub container_args : Container → List String
container_args c = arguments c.command ++ c.args

first_args : List Container → List String
first_args [] = []
first_args (c ∷ cs) = container_args c

module _ (zap : String → Option LogFlag) (r : Reconciler) (job : LmEvalJob) (c : Container)
    (main_container : (create_pod r job).spec.containers ≡ c ∷ [])
    (port : InInt64 r.options.grpc_port) where
  container_args-pod : container_args c ≡ arguments (generate_cmd r job) ++ generate_args job
  unfolding first_args create_pod
  container_args-pod = sym (ap first_args main_container)

  process-main :
      (H : Host) (B : Binaries H.Files) (T : Transport) (C : Client) (service : C.Service)
      (files : H.Files)
      → process zap H B T C (container_args c) service files
        ≡ main H B T C (record (meant r job) { args = generate_args job }) service files
  unfolding process
  process-main H B T C service files =
      ap (λ p. main_after zap H B T C p service files)
        (ap (parse_command_line zap) container_args-pod
          ∙ parse-generate_cmd zap r job (generate_args job) port)

  -- If the port is in the range of an int, the names of the job are not blank and the job is stored
  -- under its key, then the process of the only container of its pod, run against the server to the
  -- exit code 0, has run the user's program of the job or could not start it, and has left the job
  -- complete: with the results and the reason Succeeded if the program succeeded and the results were
  -- retrieved, with the error's message and the reason Failed if not; the rest of it is unchanged.
  pub process-stored :
      (K : Kube) (L : IsLawful K) (H : Host) (B : Binaries H.Files) (T : Transport) (w : World K)
      (files : H.Files)
      → ¬ IsBlank job.meta.name
      → ¬ IsBlank job.meta.namespace
      → (stored : LmEvalJob) → K.get_job w.server (job_key job) ≡ ok stored
      → (process zap H B T (served K) (container_args c) w files).2 ≡ exited 0
      → let (ended, ran) = exec H (pod_option r job) files in
        (result : Option Error) × (ran ≡ returned result)
        × (K.get_job
              (process zap H B T (served K) (container_args c) w files).0.server
              (job_key job)
            ≡ ok (
                set_status stored (
                  verdict stored.status
                    (outcome H (pod_option r job) (dump_logs H (pod_option r job) ended) result))))
  process-stored K L H B T w files named placed stored h =
      rw (process-main H B T (served K) w files) (
        main-stored K L H B T (record (meant r job) { args = generate_args job }) w files refl named
          placed stored h)
