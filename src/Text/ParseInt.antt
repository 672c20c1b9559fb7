-- ===== src/Text/ParseInt.antt =====
-- `strconv.ParseInt(s, 10, 64)`.
use Prim.Native.String.{◌∷◌ as ◌◂◌}
use fms_lm_eval_service.Prelude.{
  ℕ, zero, suc, ◌+◌, ◌-◌, ◌*◌, code, String, Bool, true, false, ◌||◌, ltb, leb, nat_eq,
  if◌then◌else◌, ◌≡◌, refl, ◌⊎◌, inl, inr,
}
use fms_lm_eval_service.Prelude.Int.{ℤ, pos, negsuc}
use fms_lm_eval_service.Text.Decimal.{is_digit}

-- The errors ErrSyntax and ErrRange.
pub data NumError : Type 0 where
  err_syntax err_range : NumError

pub data Parsed {ℓ} (A : Type ℓ) : Type ℓ where
  parsed : A → Parsed A
  refused : NumError → Parsed A

pub Parsed-cases {ℓ} :
    {A : Type ℓ} (p : Parsed A) → ((a : A) × (p ≡ parsed a)) ⊎ ((e : NumError) × (p ≡ refused e))
Parsed-cases (parsed a) = inl (a, refl)
Parsed-cases (refused e) = inr (e, refl)

-- 2 ^ 64 and 2 ^ 63
abbrev pub two_64 : ℕ
two_64 = 18446744073709551616

abbrev pub two_63 : ℕ
two_63 = 9223372036854775808

-- The loop of `ParseUint`: a value of at least `maxUint64 / 10 + 1` cannot be multiplied, and a
-- sum that leaves the 64 bits is out of range.
unfoldable pub parse_digits : String → ℕ → Parsed ℕ
parse_digits String.[] n = parsed n
parse_digits (String.◌∷◌ c s) n =
    let rest = parse_digits s (n * 10 + (code c - b'0')) in
    if is_digit c
    then (if leb 1844674407370955162 n || leb two_64 (n * 10 + (code c - b'0'))
        then refused err_range
        else rest)
    else refused err_syntax

unfoldable pub parse_uint : String → Parsed ℕ
unfolding parse_digits
parse_uint String.[] = refused err_syntax
parse_uint (String.◌∷◌ c s) = parse_digits (c ◂ s) 0

-- The sign, and the text behind it.
abbrev pub split_sign : String → Bool × String
split_sign String.[] = (false, "")
split_sign (String.◌∷◌ c s) =
    if nat_eq (code c) 45
    then (true, s)
    else if nat_eq (code c) 43
    then (false, s)
    else (false, c ◂ s)

abbrev pub negate : ℕ → ℤ
negate zero = pos zero
negate (suc n) = negsuc n

abbrev pub signed : Bool → Parsed ℕ → Parsed ℤ
signed neg (refused e) = refused e
signed false (parsed n) = if leb two_63 n then refused err_range else parsed (pos n)
signed true (parsed n) = if ltb two_63 n then refused err_range else parsed (negate n)

unfoldable pub parse_int : String → Parsed ℤ
unfolding parse_uint
parse_int s = let (neg, digits) = split_sign s in signed neg (parse_uint digits)
