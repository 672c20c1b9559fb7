-- ===== src/Text/Decimal.antt =====
-- Decimal numbers: `strconv.Itoa` and the verb `%d`, and the digits that `strconv` reads back.
use Prim.Native.String.{◌∷◌ as ◌◂◌}
use fms_lm_eval_service.Prelude.{
  ℕ, zero, suc, ◌+◌, ◌-◌, ◌*◌, ◌/◌, ◌%◌, ◌<◌, ◌≡◌, refl, Char, code, String, Bool, ◌&&◌, Option,
  none, some, arith, ltb, leb, if◌then◌else◌,
}
use fms_lm_eval_service.Prelude.Int.{ℤ, pos, negsuc}

-- The digits below ten.
unfoldable pub digit : ℕ → Char
digit zero = "0"
digit (suc zero) = "1"
digit (suc (suc zero)) = "2"
digit (suc (suc (suc zero))) = "3"
digit (suc (suc (suc (suc zero)))) = "4"
digit (suc (suc (suc (suc (suc zero))))) = "5"
digit (suc (suc (suc (suc (suc (suc zero)))))) = "6"
digit (suc (suc (suc (suc (suc (suc (suc zero))))))) = "7"
digit (suc (suc (suc (suc (suc (suc (suc (suc zero)))))))) = "8"
digit _ = "9"

pub code-digit : (d : ℕ) → d < 10 → code (digit d) ≡ b'0' + d
unfolding digit
code-digit zero h = refl
code-digit (suc zero) h = refl
code-digit (suc (suc zero)) h = refl
code-digit (suc (suc (suc zero))) h = refl
code-digit (suc (suc (suc (suc zero)))) h = refl
code-digit (suc (suc (suc (suc (suc zero))))) h = refl
code-digit (suc (suc (suc (suc (suc (suc zero)))))) h = refl
code-digit (suc (suc (suc (suc (suc (suc (suc zero))))))) h = refl
code-digit (suc (suc (suc (suc (suc (suc (suc (suc zero)))))))) h = refl
code-digit (suc (suc (suc (suc (suc (suc (suc (suc (suc d))))))))) h = last d h
  where
    last :
        (d : ℕ)
        → suc (suc (suc (suc (suc (suc (suc (suc (suc d)))))))) < 10
        → code (digit (suc (suc (suc (suc (suc (suc (suc (suc (suc d))))))))))
          ≡ b'0' + suc (suc (suc (suc (suc (suc (suc (suc (suc d))))))))
    last zero h = refl
    last (suc d) h = absurd (omega arith)

-- The digits of `n`, written in front of `out`. The fuel exceeds `n`.
unfoldable pub write_digits : ℕ → ℕ → String → String
write_digits zero n out = out
write_digits (suc fuel) n out =
    let rest = write_digits fuel (n / 10) (digit (n % 10) ◂ out) in
    if ltb n 10 then digit n ◂ out else rest

unfoldable pub format_nat : ℕ → String
unfolding write_digits digit
format_nat n = write_digits (suc n) n ""

-- `strconv.Itoa` and `%d` of an int.
unfoldable pub itoa : ℤ → String
unfolding format_nat
itoa (pos n) = format_nat n
itoa (negsuc n) = "-" ◂ format_nat (suc n)

abbrev pub is_digit : Char → Bool
is_digit c = leb b'0' (code c) && leb (code c) b'9'

-- The value of a run of digits read behind digits of value `n`; `none` at another character.
unfoldable pub scan_digits : String → ℕ → Option ℕ
scan_digits String.[] n = some n
scan_digits (String.◌∷◌ c s) n =
    if is_digit c then scan_digits s (n * 10 + (code c - b'0')) else none

scan_digits-cons :
    (d : ℕ) (out : String) (n : ℕ)
    → d < 10
    → scan_digits (digit d ◂ out) n ≡ scan_digits out (n * 10 + d)
unfolding scan_digits
scan_digits-cons d out n h = ground (arith, code-digit d h)

scan_digits-write_digits :
    (fuel n : ℕ) (out : String)
    → n < fuel
    → scan_digits (write_digits fuel n out) 0 ≡ scan_digits out n
unfolding write_digits
scan_digits-write_digits zero n out h = absurd (omega arith)
scan_digits-write_digits (suc fuel) n out h = ground (
  arith,
  scan_digits-cons n out 0,
  scan_digits-write_digits fuel (n / 10) (digit (n % 10) ◂ out),
  scan_digits-cons (n % 10) out (n / 10),
)

-- Reading what was printed gives the number back.
pub scan_digits-format_nat : (n : ℕ) → scan_digits (format_nat n) 0 ≡ some n
unfolding format_nat scan_digits
scan_digits-format_nat n = scan_digits-write_digits (suc n) n "" (omega arith)

pub format_nat-injective : (m n : ℕ) → format_nat m ≡ format_nat n → m ≡ n
format_nat-injective m n e = cc (scan_digits-format_nat m, scan_digits-format_nat n)
