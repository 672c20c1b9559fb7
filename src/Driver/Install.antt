-- ===== src/Driver/Install.antt =====
-- CopyExec (cmd/driver/main.go), run by the pod's init container.
use fms_lm_eval_service.Prelude.{
  String, ap, sym, ◌≡◌, refl, Option, none, some, List, [], ◌∷◌, inl, inr, ◌⊎◌, Option-cases,
}
use fms_lm_eval_service.Api.Core.{Error, ok, err, Result-cases, Container}
use fms_lm_eval_service.Api.Job.{LmEvalJob}
use fms_lm_eval_service.Text.Flag.{parse_flags, parse_loop, word_of, cut_value}
use fms_lm_eval_service.Text.LogFlag.{LogFlag}
use fms_lm_eval_service.Pod.Options.{Reconciler, dest_driver_path}
use fms_lm_eval_service.Pod.Command.{generate_cmd}
use fms_lm_eval_service.Pod.Build.{create_pod}
use fms_lm_eval_service.Driver.Connect.{Transport}
use fms_lm_eval_service.Driver.Run.{Host, Client}
use fms_lm_eval_service.Driver.Main.{Binaries, exited, code_of, copy_wrapped, copy_exec, main}
use fms_lm_eval_service.Driver.Process.{driver_flags, parse_command_line, process}
use fms_lm_eval_service.Driver.CommandLine.{container_args, program}

module _ {F : Type 0} (B : Binaries F) where
  -- The files and the error after each step of the copy of a text to a path.
  abbrev pub opened : F → String → F × Option Error
  opened files path = B.open_new files path

  abbrev pub written : F → String → String → F × Option Error
  written files path text = B.copy (opened files path).0 path text

  abbrev pub closed : F → String → String → F × Option Error
  closed files path text = B.close (written files path text).0 path

  -- The package os on a path that is free or names a regular file: the file that was opened empty,
  -- written and closed without an error has the text.
  pub record IsRegular (path : String) : Type 0 where
    pub filled :
        (files : F) (text : String)
        → (opened files path).1 ≡ none
        → (written files path text).1 ≡ none
        → (closed files path text).1 ≡ none
        → B.open_file (closed files path text).0 path ≡ ok text

  -- A binary is this one.
  abbrev pub Own : F → String → Type 0
  Own files text = (path : String) × (B.executable ≡ ok path) × (B.open_file files path ≡ ok text)

  -- The copy of this binary failed at one step, which left the last files.
  pub data Hindered (files : F) (path : String) : F → Type 0 where
    unnamed : (e : Error) → B.executable ≡ err e → Hindered files path files
    unread :
        (bin : String) (e : Error)
        → B.executable ≡ ok bin
        → B.open_file files bin ≡ err e
        → Hindered files path files
    unopened :
        (text : String) (e : Error)
        → Own files text
        → (opened files path).1 ≡ some e
        → Hindered files path (opened files path).0
    unwritten :
        (text : String) (e : Error)
        → Own files text
        → (opened files path).1 ≡ none
        → (written files path text).1 ≡ some e
        → Hindered files path (written files path text).0
    unclosed :
        (text : String) (e : Error)
        → Own files text
        → (opened files path).1 ≡ none
        → (written files path text).1 ≡ none
        → (closed files path text).1 ≡ some e
        → Hindered files path (closed files path text).0

  -- The path has the text of this binary, by one write to it.
  abbrev pub Installed : F → String → F → Type 0
  Installed files path files' =
      (text : String) × Own files text
      × (B.open_file files' path ≡ ok text)
      × (files' ≡ (closed files path text).0)

  abbrev Copies : F → String → F × Option Error → Type 0
  Copies files path (files', e) =
      ((code_of e ≡ 0) × Installed files path files')
      ⊎ ((code_of e ≡ 1) × Hindered files path files')

  module _ (files : F) (path : String) where
    copy-unnamed :
        (e : Error)
        → B.executable ≡ err e
        → (e' : Error) × (copy_exec B files path ≡ (files, some e'))
    copy-unnamed e x = unfold copy_exec in rw x (_, refl)

    copy-unread :
        (bin : String) (e : Error)
        → B.executable ≡ ok bin
        → B.open_file files bin ≡ err e
        → (e' : Error) × (copy_exec B files path ≡ (files, some e'))
    copy-unread bin e x r = unfold copy_exec in rw (x, r) (_, refl)

    module _ (text : String) (own : Own files text) where
      copy-unopened :
          (e : Error)
          → (opened files path).1 ≡ some e
          → (e' : Error) × (copy_exec B files path ≡ ((opened files path).0, some e'))
      copy-unopened e h =
          let (bin, x, r) = own in
          let first : opened files path ≡ ((opened files path).0, some e) =
            ap {B = F × Option Error} (λ z. ((opened files path).0, z)) h in
          unfold copy_exec in rw (x, r, first) (_, refl)

      copy-unwritten :
          (e : Error)
          → (opened files path).1 ≡ none
          → (written files path text).1 ≡ some e
          → (e' : Error) × (copy_exec B files path ≡ ((written files path text).0, some e'))
      copy-unwritten e h1 h =
          let (bin, x, r) = own in
          let first : opened files path ≡ ((opened files path).0, none) =
            ap {B = F × Option Error} (λ z. ((opened files path).0, z)) h1 in
          unfold copy_exec in
          rw (x, r, first, ap {B = F × Option Error} (λ z. ((written files path text).0, z)) h)
            (_, refl)

      copy-ended :
          (o : Option Error)
          → (opened files path).1 ≡ none
          → (written files path text).1 ≡ none
          → (closed files path text).1 ≡ o
          → copy_exec B files path ≡ ((closed files path text).0, copy_wrapped path o)
      copy-ended o h1 h2 h =
          let (bin, x, r) = own in
          let first : opened files path ≡ ((opened files path).0, none) =
            ap {B = F × Option Error} (λ z. ((opened files path).0, z)) h1 in
          let second : written files path text ≡ ((written files path text).0, none) =
            ap {B = F × Option Error} (λ z. ((written files path text).0, z)) h2 in
          unfold copy_exec in
          rw
            (
              x,
              r,
              first,
              second,
              ap {B = F × Option Error} (λ z. ((closed files path text).0, z)) h,
            )
            refl

  module _ (files : F) (path : String) (L : IsRegular path) where
    copy_exec-Own : (text : String) → Own files text → Copies files path (copy_exec B files path)
    copy_exec-Own text own = elim (Option-cases (opened files path).1) [
      | inr (e, h) ↦
          let (e', c) = copy-unopened files path text own e h in
          rw c (inr (refl, unopened text e own h))
      | inl h1 ↦ elim (Option-cases (written files path text).1) [
        | inr (e, h) ↦
            let (e', c) = copy-unwritten files path text own e h1 h in
            rw c (inr (refl, unwritten text e own h1 h))
        | inl h2 ↦ elim (Option-cases (closed files path text).1) [
          | inr (e, h) ↦
              rw (copy-ended files path text own (some e) h1 h2 h)
                (inr (refl, unclosed text e own h1 h2 h))
          | inl h3 ↦
              rw (copy-ended files path text own none h1 h2 h3)
                (inl (refl, (text, own, L.filled files text h1 h2 h3, refl)))
        ]
      ]
    ]

    copy_exec-Copies : Copies files path (copy_exec B files path)
    copy_exec-Copies = elim (Result-cases B.executable) [
      | inr (e, x) ↦ let (e', c) = copy-unnamed files path e x in rw c (inr (refl, unnamed e x))
      | inl (bin, x) ↦ elim (Result-cases (B.open_file files bin)) [
        | inr (e, r) ↦
            let (e', c) = copy-unread files path bin e x r in rw c (inr (refl, unread bin e x r))
        | inl (text, r) ↦ copy_exec-Own text (bin, x, r)
      ]
    ]

first_args : List Container → List String
first_args [] = []
first_args (c ∷ cs) = container_args c

first_program : List Container → String
first_program [] = ""
first_program (c ∷ cs) = program c.command

module _ (zap : String → Option LogFlag) (r : Reconciler) (job : LmEvalJob) (init c : Container)
    (init_container : (create_pod r job).spec.init_containers ≡ init ∷ [])
    (main_container : (create_pod r job).spec.containers ≡ c ∷ []) where
  installed : program c.command ≡ dest_driver_path
  unfolding first_program create_pod generate_cmd
  installed = sym (ap first_program main_container)

  init_args : container_args init ≡ "--copy" ∷ dest_driver_path ∷ []
  unfolding first_args create_pod
  init_args = sym (ap first_args init_container)

  process-copies :
      (H : Host) (B : Binaries H.Files) (T : Transport) (C : Client) (service : C.Service)
      (files : H.Files)
      → process zap H B T C ("--copy" ∷ dest_driver_path ∷ []) service files
        ≡ let (files', e) = copy_exec B files dest_driver_path in
          (service, files', exited (code_of e))
  unfolding process parse_command_line parse_flags parse_loop word_of cut_value driver_flags main
  process-copies H B T C service files = refl

  -- If the path that the main container's program has is free or names a regular file (what has been
  -- opened empty, written and closed there without an error has the text that was written), then
  -- the process of the pod's init container leaves the service alone, and either it ends with 0 and
  -- the path of the program that the main container runs has the driver's own binary, by nothing
  -- but the opening, the copy and the closing, or it ends with 1 and one of its steps has failed:
  -- its own path could not be found, its binary not be opened, or the destination not be opened, be
  -- written or be closed; the files are as that step has left them.
  pub process-installs :
      (H : Host) (B : Binaries H.Files) (L : IsRegular B dest_driver_path) (T : Transport)
      (C : Client) (service : C.Service) (files : H.Files)
      → let (service', files', exit) = process zap H B T C (container_args init) service files in
        (service' ≡ service)
        × (((exit ≡ exited 0) × Installed B files (program c.command) files')
            ⊎ ((exit ≡ exited 1) × Hindered B files (program c.command) files'))
  process-installs H B L T C service files =
      rw (init_args, process-copies H B T C service files, installed)
        (
          refl,
          elim (copy_exec-Copies B files dest_driver_path L) [
            | inl (z, h) ↦ inl (ap exited z, h)
            | inr (z, h) ↦ inr (ap exited z, h)
          ],
        )
