-- ===== src/Settings/Port.antt =====
-- The port of the settings: the entry of the config map that constructOptionsFromConfigMap reads
-- (backend/controller/lmevaljob_controller.go), the port that StartGrpcServer (grpc_server.go)
-- listens on, and the address that the driver dials (backend/driver/driver.go).
use text.Mathlib.TextLemmas.{nil-append, cons-append}
use fms_lm_eval_service.Prelude.{
  false≢true, ℕ, arith, ◌==◌, eq_iff, String, ◌<>◌, Bool, true, false, ◌≡◌, ◌≢◌, refl, sym, subst,
  ap, ◌∙◌, Option, none, some, List, ◌++◌, inl, inr, Bool-cases, Option-cases,
}
use fms_lm_eval_service.Prelude.Int.{ℤ, pos, is_zero}
use fms_lm_eval_service.Api.Core.{Duration, Result, ok, Result-cases}
use fms_lm_eval_service.Api.Job.{LmEvalJob}
use fms_lm_eval_service.Text.Decimal.{itoa}
use fms_lm_eval_service.Text.Flag.{stopped}
use fms_lm_eval_service.Text.LogFlag.{LogFlag}
use fms_lm_eval_service.Text.ParseInt.{
  parsed, Parsed-cases, signed, parse_uint, split_sign, parse_int,
}
use fms_lm_eval_service.Text.ReadBack.{InInt64}
use fms_lm_eval_service.Pod.Options.{
  ServiceOptions, Reconciler, default_options, tls_mode_none, tls_mode_tls, tls_mode_mtls,
}
use fms_lm_eval_service.Pod.Command.{generate_cmd}
use fms_lm_eval_service.Reconcile.Pods.{is_zero_iff}
use fms_lm_eval_service.Driver.Connect.{Transport, connect_mode, client_of, get_grpc_client_conn}
use fms_lm_eval_service.Driver.Main.{Flags, driver_option}
use fms_lm_eval_service.Driver.Process.{parse_command_line}
use fms_lm_eval_service.Driver.CommandLine.{meant, arguments, parse-generate_cmd}
use fms_lm_eval_service.Settings.Construct.{construct_options, atoi}
use fms_lm_eval_service.Settings.Laws.{value_or, construct_options-fields}
use fms_lm_eval_service.Settings.Start.{Listener, serve_on, start_grpc_server}
use fms_lm_eval_service.Settings.Served.{start_grpc_server-cases}

signed-InInt64 : (neg : Bool) (n : ℕ) (z : ℤ) → signed neg (parsed n) ≡ parsed z → InInt64 z
signed-InInt64 false n z e = ground arith
signed-InInt64 true n z e = ground arith

parse_int-InInt64 : (s : String) (z : ℤ) → parse_int s ≡ parsed z → InInt64 z
unfolding parse_int
parse_int-InInt64 s z h =
    let (neg, digits) = split_sign s in
    elim (Parsed-cases (parse_uint digits)) [
      | inl (n, e) ↦ signed-InInt64 neg n z (sym (ap (signed neg) e) ∙ h)
      | inr (x, e) ↦ absurd (cc (ap (signed neg) e, h))
    ]

atoi-InInt64 : (s : String) (z : ℤ) → atoi s ≡ ok z → InInt64 z
atoi-InInt64 s z = elim (Parsed-cases (parse_int s)) [
  | inl (x, p) ↦ rw (atoi, p) (λ h. parse_int-InInt64 s z (cc (p, h)))
  | inr (e, p) ↦ rw (atoi, p) (λ h. absurd cc)
]

port_or-InInt64 : (text : Option String) → InInt64 (value_or default_options.grpc_port atoi text)
port_or-InInt64 none = omega arith
port_or-InInt64 (some v) = elim (Result-cases (atoi v)) [
  | inl (z, e) ↦ rw e (atoi-InInt64 v z e)
  | inr (x, e) ↦ rw e (omega arith)
]

-- The port of the settings is in the range of an int, whatever the config map says.
pub construct_options-port :
    (parse_duration : String → Result Duration) (config : String → Option String)
    → InInt64 (construct_options parse_duration config).options.grpc_port
construct_options-port parse_duration config =
    rw (construct_options-fields parse_duration config) (port_or-InInt64 (config "grpc-port"))

module _ (T : Listener) where
  serve_on-Listens :
      (options : ServiceOptions) (creds server : Option T.Credentials)
      → (serve_on T options creds).server ≡ some server
      → ((serve_on T options creds).options.grpc_port ≡ options.grpc_port)
        × (T.listen (":" <> itoa options.grpc_port) ≡ none)
  serve_on-Listens options creds server =
      elim (Option-cases (T.listen (":" <> itoa options.grpc_port))) [
        | inl n ↦ rw (serve_on, n) (λ h. (refl, refl))
        | inr (failure, s) ↦ rw (serve_on, s) (λ h. absurd cc)
      ]

  start_grpc_server-Listens :
      (options : ServiceOptions) (server : Option T.Credentials)
      → (start_grpc_server T options).server ≡ some server
      → ((start_grpc_server T options).options.grpc_port ≡ options.grpc_port)
        × (T.listen (":" <> itoa options.grpc_port) ≡ none)
  start_grpc_server-Listens options server =
      start_grpc_server-cases T
        (λ started.
          started.server ≡ some server
          → (started.options.grpc_port ≡ options.grpc_port)
            × (T.listen (":" <> itoa options.grpc_port) ≡ none))
        options (λ e x. absurd cc)
        (serve_on-Listens (record options { grpc_tls_mode = tls_mode_none }) none server)
        (λ cert key creds h.
          serve_on-Listens (record options { grpc_tls_mode = tls_mode_mtls }) (some creds) server)
        (λ cert key creds h.
          serve_on-Listens (record options { grpc_tls_mode = tls_mode_tls }) (some creds) server)

abbrev is_empty : String → Bool
is_empty String.[] = true
is_empty (String.◌∷◌ c s) = false

-- A host with the suffix of a service is not empty.
service-nonempty : (a b : String) → (a <> "." <> b) ≢ ""
service-nonempty String.[] b =
    rw (nil-append ("." <> b), cons-append "." "" b) (λ e. false≢true (ap is_empty e))
service-nonempty (String.◌∷◌ c s) b =
    rw (cons-append c s ("." <> b)) (λ e. false≢true (ap is_empty e))

module _ (D : Transport) where
  dialled :
      (r : Reconciler) (job : LmEvalJob) (args : List String)
      → r.options.grpc_port ≢ pos 0
      → get_grpc_client_conn D (driver_option (record (meant r job) { args = args }))
        ≡ client_of D (connect_mode D) (
            (r.options.grpc_service <> "." <> r.namespace <> ".svc")
            <> ":"
            <> itoa r.options.grpc_port)
  unfolding get_grpc_client_conn connect_mode itoa
  dialled r job args h = elim (Bool-cases (is_zero r.options.grpc_port)) [
    | inl z ↦ absurd (h ((is_zero_iff r.options.grpc_port).0 z))
    | inr nz ↦ elim (Bool-cases ((r.options.grpc_service <> "." <> r.namespace <> ".svc") == "")) [
      | inl e ↦ absurd (
          service-nonempty r.options.grpc_service (r.namespace <> ".svc")
            ((eq_iff (r.options.grpc_service <> "." <> r.namespace <> ".svc") "").0 e))
      | inr ne ↦ rw (nz, ne) refl
    ]
  ]

  -- If the controller's server has been listening with the settings of the config map, and the port
  -- there is not 0, then the driver, started with the command that the controller writes for a job and
  -- with any arguments behind it, asks for a client at the service's host with a port on which the
  -- server has been able to listen, in the TLS mode of its environment.
  pub start_grpc_server-dialled :
      (T : Listener) (parse_duration : String → Result Duration) (config : String → Option String)
      (server : Option T.Credentials)
      → (start_grpc_server T (construct_options parse_duration config).options).server ≡ some server
      → (r : Reconciler)
      → r.options ≡ (start_grpc_server T (construct_options parse_duration config).options).options
      → r.options.grpc_port ≢ pos 0
      → (zap : String → Option LogFlag) (job : LmEvalJob) (args : List String)
      → (port : String) × (flags : Flags) × (T.listen (":" <> port) ≡ none)
        × (parse_command_line zap (arguments (generate_cmd r job) ++ args) ≡ stopped flags args)
        × (get_grpc_client_conn D (driver_option (record flags { args = args }))
            ≡ client_of D
                (connect_mode D)
                ((r.options.grpc_service <> "." <> r.namespace <> ".svc") <> ":" <> port))
  start_grpc_server-dialled T parse_duration config server up r set nonzero zap job args =
      let options = (construct_options parse_duration config).options in
      let (kept, listening) = start_grpc_server-Listens T options server up in
      let same : r.options.grpc_port ≡ options.grpc_port = ap (λ o. o.grpc_port) set ∙ kept in
      (
        itoa r.options.grpc_port,
        meant r job,
        subst (λ p. T.listen (":" <> itoa p) ≡ none) (sym same) listening,
        parse-generate_cmd zap r job args
            (subst InInt64 (sym same) (construct_options-port parse_duration config)),
        dialled r job args nonzero,
      )
