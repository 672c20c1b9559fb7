-- ===== src/Text/Strings.antt =====
-- `strings.Join`, and `strings.Trim` with a space for its cutset.
use Prim.Native.String.{◌∷◌ as ◌◂◌}
use text.Mathlib.TextLemmas.{cons≢nil}
use fms_lm_eval_service.Prelude.{
  Char, code, String, Bool, false, ◌≡◌, refl, ◌↔◌, inl, inr, List, [], ◌∷◌, ◌<>◌, arith, nat_eq,
  if◌then◌else◌, Bool-cases, ◌⊎◌,
}

-- `strings.Join`
unfoldable pub join : List String → String → String
join [] sep = ""
join (s ∷ []) sep = s
join (s ∷ t ∷ rest) sep = s <> sep <> join (t ∷ rest) sep

abbrev pub is_space : Char → Bool
is_space c = nat_eq (code c) 32

trim_left : String → String
trim_left String.[] = ""
trim_left (String.◌∷◌ c s) = if is_space c then trim_left s else c ◂ s

abbrev trim_right_step : Char → String → String
trim_right_step c String.[] = if is_space c then "" else c ◂ ""
trim_right_step c (String.◌∷◌ d s) = c ◂ d ◂ s

trim_right : String → String
trim_right String.[] = ""
trim_right (String.◌∷◌ c s) = trim_right_step c (trim_right s)

-- `strings.Trim(s, " ")`
unfoldable pub trim_spaces : String → String
unfolding trim_left trim_right
trim_spaces s = trim_right (trim_left s)

-- The text has no character but spaces.
abbrev pub IsBlank : String → Type 0
IsBlank String.[] = Unit
IsBlank (String.◌∷◌ c s) = (code c ≡ 32) × IsBlank s

trim_left-blank : (s : String) → IsBlank s → trim_left s ≡ ""
unfolding trim_left
trim_left-blank String.[] b = refl
trim_left-blank (String.◌∷◌ c s) (e, b) = ground (arith, trim_left-blank s b)

trim_right_step-solid : (c : Char) (t : String) → is_space c ≡ false → ¬ (trim_right_step c t ≡ "")
trim_right_step-solid c String.[] solid e = cons≢nil (rw solid at e)
trim_right_step-solid c (String.◌∷◌ d t) solid e = cons≢nil e

-- A text with another character than spaces does not trim to nothing.
trim_left-solid : (s : String) → ¬ IsBlank s → ¬ (trim_right (trim_left s) ≡ "")
unfolding trim_left trim_right
trim_left-solid String.[] nb e = nb tt
trim_left-solid (String.◌∷◌ c s) nb e = elim (Bool-cases (is_space c)) [
  | inl space ↦ trim_left-solid s (λ b. nb (ground arith, b)) (rw space at e)
  | inr solid ↦ trim_right_step-solid c (trim_right s) solid (rw solid at e)
]

pub dec-IsBlank : (s : String) → IsBlank s ⊎ (¬ IsBlank s)
dec-IsBlank String.[] = inl tt
dec-IsBlank (String.◌∷◌ c s) = elim (dec-IsBlank s) [
  | inr nb ↦ inr (λ b. nb b.1)
  | inl b ↦ elim (Bool-cases (is_space c)) [
    | inl space ↦ inl (ground arith, b)
    | inr solid ↦ inr (λ b'. ground (arith, b'.0))
  ]
]

pub trim_spaces-blank : (s : String) → IsBlank s → trim_spaces s ≡ ""
trim_spaces-blank s b = unfold trim_spaces in rw (trim_spaces, trim_left-blank s b)

pub trim_spaces_iff : (s : String) → (trim_spaces s ≡ "") ↔ IsBlank s
trim_spaces_iff s = (
  λ e. elim (dec-IsBlank s) [
    | inl b ↦ b
    | inr nb ↦ absurd (trim_left-solid s nb (unfold trim_spaces in e))
  ],
  trim_spaces-blank s,
)
