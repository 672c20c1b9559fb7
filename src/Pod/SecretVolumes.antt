-- ===== src/Pod/SecretVolumes.antt =====
-- The volumes and mounts of the file secrets: the loop of patch4FileSecrets
-- (backend/controller/lmevaljob_controller.go), and names of volumes.
use text.Mathlib.TextLemmas.{append_cancel_left, nil-append, cons-append}
use text.Mathlib.TextPositions.{starts_with-append}
use text.Mathlib.Text.{starts_with}
use mathlib.Core.List.{append_assoc, append-nil}
use fms_lm_eval_service.Prelude.{
  ℕ, suc, ◌≤◌, Char, code, String, ◌<>◌, true, false, ◌≡◌, refl, sym, ap, ◌∙◌, ◌≢◌, List, [], ◌∷◌,
  ◌++◌, map, arith, All, All-append, false≢true, Bool, ◌&&◌, ◌||◌, leb, nat_eq,
}
use fms_lm_eval_service.Text.Decimal.{format_nat, format_nat-injective}
use fms_lm_eval_service.Api.Core.{Volume, VolumeMount}
use fms_lm_eval_service.Api.Job.{FileSecret}
use fms_lm_eval_service.Pod.Volumes.{
  sec_vol_name, secret_volume, secret_mount, patch_file_secrets_from,
}

-- What the loop over the secrets appends.
unfoldable pub secret_volumes : ℕ → List FileSecret → List Volume
secret_volumes counter [] = []
secret_volumes counter (s ∷ secrets) =
    secret_volume counter s ∷ secret_volumes (suc counter) secrets

unfoldable pub secret_mounts : ℕ → List FileSecret → List VolumeMount
secret_mounts counter [] = []
secret_mounts counter (s ∷ secrets) = secret_mount counter s ∷ secret_mounts (suc counter) secrets

pub patch_file_secrets_from-eq :
    (counter : ℕ) (volumes : List Volume) (mounts : List VolumeMount) (secrets : List FileSecret)
    → patch_file_secrets_from counter volumes mounts secrets
      ≡ (volumes ++ secret_volumes counter secrets, mounts ++ secret_mounts counter secrets)
unfolding patch_file_secrets_from secret_volumes secret_mounts
patch_file_secrets_from-eq counter volumes mounts [] = rw (append-nil, append-nil)
patch_file_secrets_from-eq counter volumes mounts (s ∷ secrets) =
    patch_file_secrets_from-eq (suc counter) _ _ secrets ∙ rw (append_assoc, append_assoc)

pub sec_vol_name-injective : (m n : ℕ) → sec_vol_name m ≡ sec_vol_name n → m ≡ n
sec_vol_name-injective m n e =
    format_nat-injective m n (append_cancel_left "secVol" (format_nat m) (format_nat n) e)

pub sec_vol_name-ne : (s : String) (n : ℕ) → starts_with s "secVol" ≡ false → s ≢ sec_vol_name n
sec_vol_name-ne s n other e =
    false≢true (sym other ∙ rw e (starts_with-append "secVol" (format_nat n)))

-- Pairwise different texts.
abbrev pub Distinct : List String → Type 0
Distinct [] = Unit
Distinct (s ∷ names) = All (λ t. s ≢ t) names × Distinct names

abbrev pub volume_name : Volume → String
volume_name v = v.name

abbrev pub mount_name : VolumeMount → String
mount_name m = m.name

pub secret_volumes-ne :
    (s : String) (counter : ℕ) (secrets : List FileSecret)
    → ((n : ℕ) → counter ≤ n → s ≢ sec_vol_name n)
    → All (λ t. s ≢ t) (map volume_name (secret_volumes counter secrets))
unfolding secret_volumes
secret_volumes-ne s counter [] ne = tt
secret_volumes-ne s counter (_ ∷ secrets) ne = (
  ne counter (omega arith),
  secret_volumes-ne s (suc counter) secrets (λ n h. ne n (omega arith)),
)

pub secret_volumes-Distinct :
    (counter : ℕ) (secrets : List FileSecret)
    → Distinct (map volume_name (secret_volumes counter secrets))
unfolding secret_volumes
secret_volumes-Distinct counter [] = tt
secret_volumes-Distinct counter (_ ∷ secrets) = (
  secret_volumes-ne (sec_vol_name counter) (suc counter) secrets
      (λ n h e. omega (arith, sec_vol_name-injective counter n e)),
  secret_volumes-Distinct (suc counter) secrets,
)

pub Distinct-append :
    (xs ys : List String)
    → Distinct xs
    → Distinct ys
    → All (λ s. All (λ t. s ≢ t) ys) xs
    → Distinct (xs ++ ys)
Distinct-append [] ys dx dy apart = dy
Distinct-append (s ∷ xs) ys (new, dx) dy (here, apart) =
    (All-append (λ t. s ≢ t) xs ys new here, Distinct-append xs ys dx dy apart)

pub secret_mounts-names :
    (counter : ℕ) (secrets : List FileSecret)
    → map mount_name (secret_mounts counter secrets)
      ≡ map volume_name (secret_volumes counter secrets)
unfolding secret_mounts secret_volumes
secret_mounts-names counter [] = refl
secret_mounts-names counter (s ∷ secrets) =
    ap (λ names. sec_vol_name counter ∷ names) (secret_mounts-names (suc counter) secrets)

-- Lower-case letters, digits and the dash.
abbrev pub is_label_char : Char → Bool
is_label_char c =
    (leb b'a' (code c) && leb (code c) b'z')
    || (leb b'0' (code c) && leb (code c) b'9')
    || nat_eq (code c) b'-'

unfoldable pub has_label_chars : String → Bool
has_label_chars String.[] = true
has_label_chars (String.◌∷◌ c s) = is_label_char c && has_label_chars s

has_label_chars-append :
    (s t : String) → has_label_chars (s <> t) ≡ (has_label_chars s && has_label_chars t)
unfolding has_label_chars
has_label_chars-append String.[] t = rw nil-append
has_label_chars-append (String.◌∷◌ c s) t =
    rw cons-append (rw (has_label_chars-append s t) (ground arith))

pub sec_vol_name-label_chars : (n : ℕ) → has_label_chars (sec_vol_name n) ≡ false
unfolding has_label_chars
sec_vol_name-label_chars n = has_label_chars-append "secVol" (format_nat n)

pub All-append_right :
    (xs ys : List Volume)
    → All (λ v. has_label_chars v.name ≡ true) (xs ++ ys)
    → All (λ v. has_label_chars v.name ≡ true) ys
All-append_right [] ys h = h
All-append_right (x ∷ xs) ys h = All-append_right xs ys h.1

pub secret_volumes-label_chars :
    (secrets : List FileSecret)
    → All (λ v. has_label_chars v.name ≡ true) (secret_volumes 1 secrets)
    → secrets ≡ []
unfolding secret_volumes
secret_volumes-label_chars [] h = refl
secret_volumes-label_chars (s ∷ secrets) h =
    absurd (false≢true (sym (sec_vol_name-label_chars 1) ∙ h.0))

pub apart :
    (s : String) (secrets : List FileSecret)
    → starts_with s "secVol" ≡ false
    → All (λ t. s ≢ t) (map volume_name (secret_volumes 1 secrets))
apart s secrets other = secret_volumes-ne s 1 secrets (λ n _. sec_vol_name-ne s n other)
