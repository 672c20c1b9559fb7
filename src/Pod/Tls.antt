-- ===== src/Pod/Tls.antt =====
-- The TLS mode that the controller writes into a pod's environment (createPod and patch4GrpcTLS of
-- backend/controller/lmevaljob_controller.go) and the one that the driver reads from it
-- (getGRPCClientConn of backend/driver/driver.go).
use fms_lm_eval_service.Prelude.{
  String, true, false, ◌≡◌, refl, ◌≢◌, ◌↔◌, ◌⊎◌, inl, inr, sym, ap, subst, ◌∙◌, ◌==◌, if◌then◌else◌,
  eq_iff, Option, none, some, List, [], ◌∷◌, ◌++◌, All, Bool-cases, str_ne,
}
use fms_lm_eval_service.Api.Core.{EnvVar, SecretKeySelector, Container}
use fms_lm_eval_service.Api.Job.{EnvSecret, LmEvalJob}
use fms_lm_eval_service.Pod.Options.{
  ServiceOptions, Reconciler, TlsMode, tls_mode_none, tls_mode_tls, tls_mode_mtls,
}
use fms_lm_eval_service.Pod.Volumes.{
  grpc_client_key_env, grpc_client_cert_env, grpc_server_ca_env, PodParts, env_of_source,
  generate_envs, patch_grpc_tls,
}
use fms_lm_eval_service.Pod.Build.{shared_volume, shared_mount, create_pod}
use fms_lm_eval_service.Driver.Connect.{Transport, connect_mode}

-- What a container's environment says of a variable: nothing, a value, or that the value is taken from
-- elsewhere.
pub data Given : Type 0 where
  absent : Given
  plain : String → Given
  sourced : Given

abbrev given_by : EnvVar → Given
given_by v = elim v.value_from [ none ↦ plain v.value | some source ↦ sourced ]

abbrev or_else : Given → Given → Given
or_else absent earlier = earlier
or_else (plain value) earlier = plain value
or_else sourced earlier = sourced

-- Of several variables with one name the last one counts.
abbrev pub given : String → List EnvVar → Given
given name [] = absent
given name (v ∷ env) = or_else (given name env) (if v.name == name then given_by v else absent)

-- The variable in the process's environment, if nothing but the container's sets it.
abbrev pub Shows : Option String → Given → Type 0
Shows found absent = found ≡ none
Shows found (plain value) = found ≡ some value
Shows found sourced = Unit

abbrev pub IsFilled : Option String → Type 0
IsFilled found = (value : String) × (found ≡ some value) × (value ≢ "")

-- The three variables of the TLS settings.
abbrev pub IsTlsEnv : String → Type 0
IsTlsEnv name =
    (name ≡ grpc_client_key_env) ⊎ (name ≡ grpc_client_cert_env) ⊎ (name ≡ grpc_server_ca_env)

-- The process has the TLS variables of its container and no others, and viper with `AutomaticEnv`
-- takes one of these as set when it is there and not empty.
pub record SeesEnv (T : Transport) (environ : String → Option String) (env : List EnvVar)
    : Type 0 where
  pub shown : (name : String) → IsTlsEnv name → Shows (environ name) (given name env)
  pub is_set : (name : String) → IsTlsEnv name → (T.is_set name ≡ true) ↔ IsFilled (environ name)

-- None of the job's secrets takes one of the variables of the TLS settings.
abbrev pub LeavesTls : List EnvSecret → Type 0
LeavesTls secrets =
    All
      (λ s.
        (s.env ≢ grpc_client_key_env)
        × (s.env ≢ grpc_client_cert_env)
        × (s.env ≢ grpc_server_ca_env))
      secrets

or_else_assoc : (x y z : Given) → or_else (or_else x y) z ≡ or_else x (or_else y z)
or_else_assoc absent y z = refl
or_else_assoc (plain value) y z = refl
or_else_assoc sourced y z = refl

or_else_absent : (x : Given) → or_else x absent ≡ x
or_else_absent absent = refl
or_else_absent (plain value) = refl
or_else_absent sourced = refl

given-append :
    (name : String) (xs ys : List EnvVar)
    → given name (xs ++ ys) ≡ or_else (given name ys) (given name xs)
given-append name [] ys = sym (or_else_absent (given name ys))
given-append name (v ∷ xs) ys =
    rw (given-append name xs ys) (or_else_assoc (given name ys) (given name xs) _)

other_name : (name env : String) → env ≢ name → (env == name) ≡ false
other_name name env ne = elim (Bool-cases (env == name)) [
  | inl same ↦ absurd (ne ((eq_iff env name).0 same))
  | inr other ↦ other
]

given-env_of_source :
    (name env : String) (secret : Option String) (secret_ref : Option SecretKeySelector)
    → env ≢ name
    → given name (env_of_source env secret secret_ref) ≡ absent
given-env_of_source name env (some secret) secret_ref ne = rw (other_name name env ne) refl
given-env_of_source name env none (some secret_ref) ne = rw (other_name name env ne) refl
given-env_of_source name env none none ne = refl

given-generate_envs :
    (name : String) (secrets : List EnvSecret)
    → All (λ s. s.env ≢ name) secrets
    → given name (generate_envs secrets) ≡ absent
unfolding generate_envs
given-generate_envs name [] h = refl
given-generate_envs name (s ∷ secrets) (h, hs) =
    given-append name (env_of_source s.env s.secret s.secret_ref) (generate_envs secrets)
    ∙ ap (λ g. or_else g (given name (env_of_source s.env s.secret s.secret_ref)))
        (given-generate_envs name secrets hs)
    ∙ given-env_of_source name s.env s.secret s.secret_ref h

module _ (T : Transport) (environ : String → Option String) (env : List EnvVar)
    (sees : SeesEnv T environ env) (name : String) (tls : IsTlsEnv name) where
  is_set-present :
      (value : String) → value ≢ "" → given name env ≡ plain value → T.is_set name ≡ true
  is_set-present value ne e =
      (sees.is_set name tls).1 (value, subst (Shows (environ name)) e (sees.shown name tls), ne)

  is_set-absent : given name env ≡ absent → T.is_set name ≡ false
  is_set-absent e = elim (Bool-cases (T.is_set name)) [
    | inl set ↦
        let (value, found, ne) = (sees.is_set name tls).0 set in
        let missing : environ name ≡ none = subst (Shows (environ name)) e (sees.shown name tls) in
        absurd (cc (found, missing))
    | inr unset ↦ unset
  ]

key_tls : IsTlsEnv grpc_client_key_env
key_tls = inl refl

cert_tls : IsTlsEnv grpc_client_cert_env
cert_tls = inr (inl refl)

ca_tls : IsTlsEnv grpc_server_ca_env
ca_tls = inr (inr refl)

LeavesTls-All :
    (secrets : List EnvSecret)
    → LeavesTls secrets
    → All (λ s. s.env ≢ grpc_client_key_env) secrets
      × All (λ s. s.env ≢ grpc_client_cert_env) secrets
      × All (λ s. s.env ≢ grpc_server_ca_env) secrets
LeavesTls-All [] h = (tt, tt, tt)
LeavesTls-All (s ∷ secrets) (h, hs) =
    let (keys, certs, cas) = LeavesTls-All secrets hs in ((h.0, keys), (h.1, certs), (h.2, cas))

module _ (T : Transport) (environ : String → Option String) (options : ServiceOptions)
    (parts : PodParts) (no_cert : given grpc_client_cert_env parts.env_vars ≡ absent)
    (no_ca : given grpc_server_ca_env parts.env_vars ≡ absent) where
  -- What `patch4GrpcTLS` adds is what the driver looks for.
  connect_mode-patched :
      (mode : TlsMode)
      → SeesEnv T environ (patch_grpc_tls options parts mode).env_vars
      → connect_mode T ≡ mode
  unfolding patch_grpc_tls connect_mode
  connect_mode-patched tls_mode_none sees =
      rw (is_set-absent T environ _ sees grpc_server_ca_env ca_tls no_ca)
  connect_mode-patched tls_mode_tls sees = rw (
    is_set-present T environ _ sees grpc_server_ca_env ca_tls "/tmp/k8s-grpc-server/certs/ca.crt"
        (str_ne _ _ refl) (given-append grpc_server_ca_env parts.env_vars _),
    is_set-absent T environ _ sees grpc_client_cert_env cert_tls
        (given-append grpc_client_cert_env parts.env_vars _ ∙ no_cert),
  )
  connect_mode-patched tls_mode_mtls sees = rw (
    is_set-present T environ _ sees grpc_server_ca_env ca_tls "/tmp/k8s-grpc-server/certs/ca.crt"
        (str_ne _ _ refl) (given-append grpc_server_ca_env parts.env_vars _),
    is_set-present T environ _ sees grpc_client_cert_env cert_tls
        "/tmp/k8s-grpc-client/certs/tls.crt" (str_ne _ _ refl)
        (given-append grpc_client_cert_env parts.env_vars _),
    is_set-present T environ _ sees grpc_client_key_env key_tls "/tmp/k8s-grpc-client/certs/tls.key"
        (str_ne _ _ refl) (given-append grpc_client_key_env parts.env_vars _),
  )

abbrev first_env : List Container → List EnvVar
first_env [] = []
first_env (c ∷ _) = c.env

-- If the job's secrets leave the variables of the TLS settings alone, a driver that has these
-- variables from the pod's container and from nowhere else connects in the TLS mode of the controller.
pub create_pod-connect_mode :
    (r : Reconciler) (job : LmEvalJob) (T : Transport) (environ : String → Option String)
    (c : Container)
    → (create_pod r job).spec.containers ≡ c ∷ []
    → LeavesTls job.spec.env_secrets
    → SeesEnv T environ c.env
    → connect_mode T ≡ r.options.grpc_tls_mode
unfolding create_pod
create_pod-connect_mode r job T environ c main leaves sees =
    let (keys, certs, cas) = LeavesTls-All job.spec.env_secrets leaves in
    connect_mode-patched T environ r.options
      (record {
        env_vars = generate_envs job.spec.env_secrets;
        volumes = shared_volume ∷ [];
        volume_mounts = shared_mount ∷ [];
      })
      (given-generate_envs grpc_client_cert_env job.spec.env_secrets certs)
      (given-generate_envs grpc_server_ca_env job.spec.env_secrets cas) r.options.grpc_tls_mode
      (subst (SeesEnv T environ) (sym (ap first_env main)) sees)
