-- ===== src/Text/ReadBack.antt =====
-- `strconv.ParseInt(s, 0, 64)` and `strconv.ParseInt(s, 10, 64)` on what `strconv.Itoa` writes.
use Prim.Native.String.{◌∷◌ as ◌◂◌}
use text.Mathlib.TextLemmas.{cons≢nil}
use fms_lm_eval_service.Prelude.{
  ℕ, zero, suc, ◌+◌, ◌-◌, ◌*◌, ◌/◌, ◌%◌, ◌<◌, ◌≤◌, ◌≡◌, refl, code, String, true, false, some,
  arith, nat_eq, ◌==◌, Bool-cases, inl, inr, eq_iff,
}
use fms_lm_eval_service.Prelude.Int.{ℤ, pos, negsuc}
use fms_lm_eval_service.Text.Decimal.{
  digit, code-digit, write_digits, format_nat, itoa, scan_digits, scan_digits-format_nat,
}
use fms_lm_eval_service.Text.ParseInt.{parsed, two_63, two_64, signed, split_sign}
use fms_lm_eval_service.Text.IntLiteral.{scan_digits-grows}
use fms_lm_eval_service.Text.ParseBase.{parse_based, has_underscore, parse_uint_0, parse_int_0}

-- A text that starts with one of the digits 1 to 9.
abbrev pub Leads : String → Type 0
Leads String.[] = ⊥
Leads (String.◌∷◌ c s) = (49 ≤ code c) × (code c ≤ 57)

write_digits-Leads :
    (fuel n : ℕ) (out : String) → 0 < n → n < fuel → Leads (write_digits fuel n out)
unfolding write_digits
write_digits-Leads zero n out p h = absurd (omega arith)
write_digits-Leads (suc fuel) n out p h =
    ground (arith, code-digit n, write_digits-Leads fuel (n / 10) (digit (n % 10) ◂ out))

parse_based-scan :
    (s : String) (n m : ℕ) → m < two_64 → scan_digits s n ≡ some m → parse_based 10 s n ≡ parsed m
unfolding parse_based scan_digits
parse_based-scan String.[] n m h e = ground arith
parse_based-scan (String.◌∷◌ c s) n m h e = ground (
  arith,
  parse_based-scan s (n * 10 + (code c - b'0')) m,
  scan_digits-grows s (n * 10 + (code c - b'0')) m,
)

scan-has_underscore : (s : String) (n m : ℕ) → scan_digits s n ≡ some m → has_underscore s ≡ false
unfolding scan_digits
scan-has_underscore String.[] n m e = refl
scan-has_underscore (String.◌∷◌ c s) n m e =
    ground (arith, scan-has_underscore s (n * 10 + (code c - b'0')) m)

parse_uint_0-Leads :
    (s : String) (m : ℕ)
    → Leads s
    → m < two_64
    → scan_digits s 0 ≡ some m
    → parse_uint_0 s ≡ parsed m
parse_uint_0-Leads String.[] m l h e = absurd l
parse_uint_0-Leads (String.◌∷◌ c s) m l h e =
    unfold parse_uint_0 in
    elim (Bool-cases ((c ◂ s) == "")) [
      | inl empty ↦ absurd (cons≢nil ((eq_iff (c ◂ s) "").0 empty))
      | inr solid ↦ elim (Bool-cases (nat_eq (code c) b'0')) [
        | inl z ↦ absurd (ground arith)
        | inr nz ↦ rw (
          parse_uint_0,
          solid,
          nz,
          parse_based-scan (c ◂ s) 0 m h e,
          scan-has_underscore (c ◂ s) 0 m e,
        )
      ]
    ]

parse_uint_0-format_nat : (n : ℕ) → n < two_64 → parse_uint_0 (format_nat n) ≡ parsed n
unfolding format_nat write_digits digit parse_uint_0 parse_based
parse_uint_0-format_nat zero h = refl
parse_uint_0-format_nat (suc n) h =
    parse_uint_0-Leads (format_nat (suc n)) (suc n)
      (write_digits-Leads (suc (suc n)) (suc n) "" (omega arith) (omega arith)) h
      (scan_digits-format_nat (suc n))

split_sign-Leads : (s : String) → Leads s → split_sign s ≡ (false, s)
split_sign-Leads String.[] l = absurd l
split_sign-Leads (String.◌∷◌ c s) l = ground arith

split_sign-format_nat : (n : ℕ) → split_sign (format_nat n) ≡ (false, format_nat n)
unfolding format_nat write_digits digit
split_sign-format_nat zero = refl
split_sign-format_nat (suc n) =
    split_sign-Leads (format_nat (suc n))
      (write_digits-Leads (suc (suc n)) (suc n) "" (omega arith) (omega arith))

-- The range of an int64.
abbrev pub InInt64 : ℤ → Type 0
InInt64 (pos n) = n < two_63
InInt64 (negsuc n) = n < two_63

signed_neg : (n : ℕ) → n < two_63 → signed true (parsed (suc n)) ≡ parsed (negsuc n)
signed_neg n h = ground arith

-- A printed int64 is read back.
pub parse_int_0-itoa : (z : ℤ) → InInt64 z → parse_int_0 (itoa z) ≡ parsed z
parse_int_0-itoa (pos n) h =
    unfold parse_int_0 itoa in
    rw (parse_int_0, itoa, split_sign-format_nat n, parse_uint_0-format_nat n (omega arith))
      (ground arith)
parse_int_0-itoa (negsuc n) h =
    unfold parse_int_0 itoa in
    rw (parse_int_0, itoa, parse_uint_0-format_nat (suc n) (omega arith)) (signed_neg n h)
