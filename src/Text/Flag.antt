-- ===== src/Text/Flag.antt =====
-- Go's package flag: `FlagSet.Parse` and the values of kind string, int and bool. What it prints is
-- left out.
use Prim.Native.String.{◌∷◌ as ◌◂◌}
use fms_lm_eval_service.Prelude.{
  Char, code, String, ◌==◌, Bool, true, false, ◌||◌, Option, none, some, List, [], ◌∷◌, nat_eq,
  if◌then◌else◌,
}
use fms_lm_eval_service.Prelude.Int.{ℤ}
use fms_lm_eval_service.Api.Core.{errorf, Result, ok, err}
use fms_lm_eval_service.Text.ParseInt.{parsed, refused}
use fms_lm_eval_service.Text.ParseBase.{parse_int_0}

-- A defined flag: whether it may stand without a value, and `Set`, on the variables.
pub record Formal {ℓ} (S : Type ℓ) : Type ℓ where
  pub is_bool_flag : Bool
  pub set : String → S → Result S

-- What `parseOne` sees in an argument.
pub data Word : Type 0 where
  not_a_flag end_mark bad_syntax : Word
  named : String → Option String → Word

abbrev pub is_char : Char → Char → Bool
is_char a b = nat_eq (code a) (code b)

-- The name up to the first "=" behind its first character, and what follows the "=".
abbrev pub with_first : Char → String × Option String → String × Option String
with_first c (name, value) = (c ◂ name, value)

unfoldable pub cut_value : String → String × Option String
cut_value String.[] = ("", none)
cut_value (String.◌∷◌ c s) =
    let rest = cut_value s in if is_char c "=" then ("", some s) else with_first c rest

abbrev pub name_word : String → Word
name_word String.[] = bad_syntax
name_word (String.◌∷◌ c s) =
    if is_char c "-" || is_char c "="
    then bad_syntax
    else let (name, value) = cut_value s in named (c ◂ name) value

abbrev pub behind_dashes : String → Word
behind_dashes String.[] = end_mark
behind_dashes (String.◌∷◌ c s) = name_word (c ◂ s)

abbrev pub behind_dash : String → Word
behind_dash String.[] = not_a_flag
behind_dash (String.◌∷◌ c s) = if is_char c "-" then behind_dashes s else name_word (c ◂ s)

unfoldable pub word_of : String → Word
unfolding cut_value
word_of String.[] = not_a_flag
word_of (String.◌∷◌ c s) = if is_char c "-" then behind_dash s else not_a_flag

-- How `Parse` ends: the variables with the arguments behind the flags; the help text; or an error.
pub data Parse {ℓ} (S : Type ℓ) : Type ℓ where
  stopped : S → List String → Parse S
  helped failed : Parse S

module _ {ℓ} {S : Type ℓ} (formal : String → Option (Formal S)) where
  -- The loop of `Parse`. A flag is pending while its value is to be the next argument.
  unfoldable pub parse_loop : List String → Option (Formal S) → S → Parse S
  parse_loop [] none s = stopped s []
  parse_loop [] (some f) s = failed
  parse_loop (arg ∷ args) (some f) s = elim (f.set arg s) [
    | ok s' ↦ parse_loop args none s'
    | err e ↦ failed
  ]
  parse_loop (arg ∷ args) none s = elim (word_of arg) [
    | not_a_flag ↦ stopped s (arg ∷ args)
    | end_mark ↦ stopped s args
    | bad_syntax ↦ failed
    | named name value ↦ elim (formal name) [
      | none ↦ if name == "help" || name == "h" then helped else failed
      | some f ↦ elim value [
        | some v ↦ elim (f.set v s) [ ok s' ↦ parse_loop args none s' | err e ↦ failed ]
        | none ↦ elim f.is_bool_flag [
          | true ↦ elim (f.set "true" s) [ ok s' ↦ parse_loop args none s' | err e ↦ failed ]
          | false ↦ parse_loop args (some f) s
        ]
      ]
    ]
  ]

  unfoldable pub parse_flags : List String → S → Parse S
  unfolding parse_loop word_of
  parse_flags args s = parse_loop args none s

-- `strconv.ParseBool`
abbrev pub parse_bool : String → Option Bool
parse_bool v =
    if v == "1" || (v == "t" || (v == "T" || (v == "TRUE" || (v == "true" || v == "True"))))
    then some true
    else if v == "0" || (v == "f" || (v == "F" || (v == "FALSE" || (v == "false" || v == "False"))))
    then some false
    else none

module _ {ℓ} {S : Type ℓ} where
  abbrev pub string_flag : (String → S → S) → Formal S
  string_flag put = record { is_bool_flag = false; set = λ v s. ok (put v s) }

  abbrev set_int : (ℤ → S → S) → String → S → Result S
  set_int put v s = elim (parse_int_0 v) [
    | parsed z ↦ ok (put z s)
    | refused e ↦ err (errorf "parse error")
  ]

  abbrev pub int_flag : (ℤ → S → S) → Formal S
  int_flag put = record { is_bool_flag = false; set = set_int put }

  abbrev set_bool : (Bool → S → S) → String → S → Result S
  set_bool put v s = elim (parse_bool v) [
    | some b ↦ ok (put b s)
    | none ↦ err (errorf "parse error")
  ]

  abbrev pub bool_flag : (Bool → S → S) → Formal S
  bool_flag put = record { is_bool_flag = true; set = set_bool put }
