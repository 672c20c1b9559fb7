-- ===== src/Copy/Sharing.antt =====
-- What a job and its deep copy share (api/v1beta1/zz_generated.deepcopy.go).
use fms_lm_eval_service.Prelude.{
  ℕ, ◌≡◌, refl, sym, subst, ltb, if◌then◌else◌, Option, none, some, List, ◌∷◌, length, ◌≤◌, All,
  All-Any, Any,
}
use fms_lm_eval_service.Api.Job.{LmEvalJob, EnvSecret, FileSecret}
use fms_lm_eval_service.Copy.Memory.{Address, Cmd, set, set-append, Grows}
use fms_lm_eval_service.Copy.Layout.{
  Machinery, Slice, Cell, StoredJob, as_job, as_env_secrets, as_file_secrets, env_secrets_cell,
  file_secrets_cell, At, Lists,
}
use fms_lm_eval_service.Copy.Generated.{deep_copy_job}
use fms_lm_eval_service.Copy.Machinery.{IsMachinery}
use fms_lm_eval_service.Copy.Copied.{Fresh}
use fms_lm_eval_service.Copy.Fields.{At-Grows, Lists-Grows}
use fms_lm_eval_service.Copy.Access.{seen_after, seen_after-Lists}
use fms_lm_eval_service.Copy.Job.{IsStoredJob, IsStoredJob-Grows, job_owned, deep_copy_job-copies}

new_write :
    {C : Type 0} (m m' : List C) (w : Address) (c : C)
    → Grows m m'
    → length m ≤ w
    → Grows m (set m' w c)
new_write m m' w c (more, e) h = let (rest, kept) = set-append m more w c h in (rest, rw e kept)

module _ {T : Machinery} {V : Type 0} (read : Cell T → Option (List V)) (write : List V → Cell T)
    (inverse : (vs : List V) → read (write vs) ≡ some vs) where
  shared :
      (m m' : List (Cell T)) (p q : Option Slice) (i : ℕ) (x : V) (vs : List V)
      → Grows m m'
      → Lists m read p vs
      → q ≡ p
      → seen_after read write q i x p m' ≡ (if ltb i (length vs) then some (set vs i x) else none)
  shared m m' p q i x vs g h e =
      subst
        (λ z.
          seen_after read write z i x p m'
          ≡ (if ltb i (length vs) then some (set vs i x) else none))
        (sym e) (seen_after-Lists read write inverse m' p i x vs (Lists-Grows read m m' p vs g h))

module _ {T : Machinery} {copy_time : Address → Cmd (Cell T) Address}
    {copy_meta : T.Meta → Cmd (Cell T) T.Meta}
    {copy_list_meta : T.ListMeta → Cmd (Cell T) T.ListMeta}
    (X : IsMachinery T copy_time copy_meta copy_list_meta) (m m' : List (Cell T)) (a a' : Address)
    (j j' : StoredJob T) (v : LmEvalJob) (here : At m as_job a j) (view : IsStoredJob X m j v)
    (copied : deep_copy_job copy_time copy_meta copy_list_meta (some a) m ≡ some (some a', m'))
    (there : At m' as_job a' j') where
  abbrev Facts : Address → StoredJob T → List (Cell T) → Type 0
  Facts b k n =
      Grows m n
      × All (Fresh m) (some b ∷ job_owned X n k)
      × (k.spec.env_secrets ≡ j.spec.env_secrets)
      × (k.spec.file_secrets ≡ j.spec.file_secrets)

  the_copy : Facts a' j' m'
  the_copy =
      let (b, k, n, e, g, at_b, same, fresh, env, files) =
        deep_copy_job-copies X m a j v here view in
      let eb : b ≡ a' = cc (e, copied) in
      let en : n ≡ m' = cc (e, copied) in
      let ek : k ≡ j' = cc (at_b, there, eb, en) in
      subst (λ z. Facts z j' m') eb
        (subst (λ z. Facts b z m') ek (subst (λ z. Facts b k z) en (g, fresh, env, files)))

  -- If a job that stands for a value has been copied by `DeepCopy`, a write at the copy, or at
  -- what it points to but for the arrays of its secrets, changes nothing of the job that was
  -- copied.
  pub deep_copy_job-separate :
      (w : Address) (c : Cell T)
      → Any (λ p. p ≡ some w) (some a' ∷ job_owned X m' j')
      → At (set m' w c) as_job a j × IsStoredJob X (set m' w c) j v
  deep_copy_job-separate w c own =
      let (g, fresh, env, files) = the_copy in
      let g' =
        new_write m m' w c g (All-Any (Fresh m) (some a' ∷ job_owned X m' j') (some w) fresh own) in
      (At-Grows as_job m (set m' w c) a j g' here, IsStoredJob-Grows X m (set m' w c) j v g' view)

  -- If a job that stands for a value has been copied by `DeepCopy`, an assignment to an element of
  -- the copy's secrets for the environment, or of those for files, is seen in the job that was
  -- copied, which then has its own secrets with that element replaced; an index that is not below
  -- the number of secrets is a fault.
  pub deep_copy_job-shares :
      (i : ℕ) (e : EnvSecret) (f : FileSecret)
      → (seen_after as_env_secrets env_secrets_cell j'.spec.env_secrets i e j.spec.env_secrets m'
          ≡ (if ltb i (length v.spec.env_secrets) then some (set v.spec.env_secrets i e) else none))
        × (seen_after as_file_secrets file_secrets_cell j'.spec.file_secrets i f j.spec.file_secrets
              m'
            ≡ (if ltb i (length v.spec.file_secrets)
                then some (set v.spec.file_secrets i f)
                else none))
  deep_copy_job-shares i e f =
      let (g, fresh, env, files) = the_copy in
      (
        shared as_env_secrets env_secrets_cell (λ vs. refl) m m' j.spec.env_secrets
            j'.spec.env_secrets i e v.spec.env_secrets g view.spec.env_secrets env,
        shared as_file_secrets file_secrets_cell (λ vs. refl) m m' j.spec.file_secrets
            j'.spec.file_secrets i f v.spec.file_secrets g view.spec.file_secrets files,
      )
