-- ===== src/Lib.antt =====
-- The evaluation service for language models: a controller runs each LMEvalJob in a pod, a driver in
-- that pod runs the user's program and reports to the controller over gRPC.
--
-- The parts and their files:
--   * Api: the resource types of api/v1beta1/lmevaljob_types.go and groupversion_info.go, the
--     messages of backend/api/v1beta1/update_status.proto, and the fields of the Kubernetes types
--     that the code uses. Names are those of the source in snake case.
--   * Cluster: the API server behind controller-runtime's client, which is not part of the
--     repository. Interface has the record of calls (Kube) and what the code may rely on
--     (IsLawful); Memory is a cluster in memory that meets it.
--   * Pod: createPod of backend/controller/lmevaljob_controller.go and all it calls (generateArgs,
--     generateCmd, generateEnvs, patch4GrpcTLS, patch4FileSecrets). Tls, Names, Mounted
--     and Script are about the environment, the volumes and the script of the pod that it makes.
--   * Reconcile: Reconcile and its handlers, of the same file (Base, Handlers). A handler takes and
--     returns the World: the server, and the events it has recorded. The other files are about
--     them, a file for each concern.
--   * Grpc: updateStatus of that file, and UpdateStatus of grpc_server.go, which calls it. Grpc and
--     Reconcile act on the same World, so their order is the order of the calls; Reconcile/Trace
--     reads the writes of a reconciliation off a log that the API client keeps.
--   * Settings: constructOptionsFromConfigMap, checkSecrets and the runnable of SetupWithManager
--     (Construct, Start), and StartGrpcServer and getMTLSServer of grpc_server.go (Start). Agree
--     and Port bring the server, the pod and the driver together.
--   * Driver: backend/driver/driver.go (Connect, Run) and cmd/driver/main.go (Main, Process: main with
--     its flags). Report lets the driver report to the controller's server; CommandLine reads the
--     command and the arguments that the controller gives the pod; Ends and Install are about the exit code
--     of the process and the copy of the binary.
--   * Controller: cmd/controller/main.go (Flags, Main), and SetupWithManager and
--     SetupWebhookWithManager (Manage), which give the manager what it runs. Duties, Http and Wake are
--     about the manager that is started.
--   * Lifecycle: a job between the reconciliations, the drivers' reports, the cluster and the user,
--     whose steps come in any order (System); Change is the diagram of the status, Remaining counts
--     the steps that are left in it, Whole and Begun follow one job from its pod, and from its
--     creation, to its end.
--   * Webhook: the validations of api/v1beta1/lmevaljob_webhook.go.
--   * Copy: the deep copies of api/v1beta1/zz_generated.deepcopy.go over a memory with addresses
--     (Memory), in which a pointer is an address and a slice has an array and a length (Layout);
--     Generated has the methods, Access the reads and writes through a slice, the other files are
--     about the methods.
--   * Text: what the code uses of Go's flag, fmt, strconv and strings; Prelude: shared names and
--     helpers; Tests: concrete data, runs, and the theorems at concrete inputs.
--
-- Code outside the repository is a parameter: the API client and controllerutil (Kube), the TLS
-- and gRPC libraries with viper (Transport, Listener), the driver's file system and processes
-- (Host, Binaries), the manager of controller-runtime (Runtime) and what it does with predicates,
-- the flags of zap (LogFlag), the deep copies of apimachinery (IsMachinery), time.ParseDuration,
-- and the floating-point numbers (Numbers). Integers are ℤ; the values that the code keeps do not
-- leave the range of Go's int, but where a text is read as an integer (Text.ParseInt,
-- Text.ParseBase), the 64 bits are checked as strconv does. Numbers are printed with fuel of the
-- number plus one, which is more than its digits. No other function needs fuel.
--
-- Not modelled: logs; the registration of the schemes; the code generated by protoc; the Python
-- prototype under server; conflicts between writers beyond what IsLawful leaves open (a write may
-- fail, and a failed write may have been applied).
pub mod Prelude
pub mod Api
pub mod Cluster
pub mod Pod
pub mod Reconcile
pub mod Grpc
pub mod Settings
pub mod Driver
pub mod Lifecycle
pub mod Controller
pub mod Copy
pub mod Webhook
pub mod Text
mod Tests
