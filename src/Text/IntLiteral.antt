-- ===== src/Text/IntLiteral.antt =====
-- Which texts `strconv.ParseInt` reads as a 64-bit integer.
use Prim.Native.String.{◌∷◌ as ◌◂◌}
use text.Mathlib.TextLemmas.{cons≢nil}
use fms_lm_eval_service.Prelude.{
  ℕ, ◌+◌, ◌-◌, ◌*◌, ◌<◌, ◌≤◌, ◌≡◌, refl, ◌↔◌, ◌⊎◌, inl, inr, Char, code, String, Bool, true, false,
  some, arith, ltb, leb, nat_eq, Bool-cases, ◌≢◌,
}
use fms_lm_eval_service.Prelude.Int.{ℤ, pos}
use fms_lm_eval_service.Text.Decimal.{scan_digits}
use fms_lm_eval_service.Text.ParseInt.{
  Parsed, parsed, refused, two_63, two_64, parse_digits, parse_uint, parse_int, signed, negate,
}

-- A text of one digit or more, with its value.
abbrev pub Numeral : String → ℕ → Type 0
Numeral s n = (s ≢ "") × (scan_digits s 0 ≡ some n)

pub scan_digits-grows : (s : String) (n m : ℕ) → scan_digits s n ≡ some m → n ≤ m
unfolding scan_digits
scan_digits-grows String.[] n m e = ground arith
scan_digits-grows (String.◌∷◌ c s) n m e =
    ground (arith, scan_digits-grows s (n * 10 + (code c - b'0')) m)

parse_digits_iff :
    (s : String) (n m : ℕ)
    → n < two_64
    → (parse_digits s n ≡ parsed m) ↔ ((scan_digits s n ≡ some m) × (m < two_64))
unfolding scan_digits parse_digits
parse_digits_iff String.[] n m h = (λ e. ground arith, λ e. ground arith)
parse_digits_iff (String.◌∷◌ c s) n m h = ground (
  arith,
  parse_digits_iff s (n * 10 + (code c - b'0')) m,
  scan_digits-grows s (n * 10 + (code c - b'0')) m,
)

parse_uint_iff : (s : String) (n : ℕ) → (parse_uint s ≡ parsed n) ↔ (Numeral s n × (n < two_64))
unfolding parse_uint
parse_uint_iff String.[] n = (λ e. absurd cc, λ e. absurd (e.0.0 refl))
parse_uint_iff (String.◌∷◌ c s) n =
    let (there, back) = parse_digits_iff (c ◂ s) 0 n (omega arith) in
    (λ e. ((λ x. cons≢nil x, (there e).0), (there e).1), λ e. back (e.0.1, e.1))

-- The bounds of an int64, by its sign.
abbrev pub InRange : Bool → ℕ → Type 0
InRange true n = n ≤ two_63
InRange false n = n < two_63

signed_iff :
    (neg : Bool) (p : Parsed ℕ)
    → ((z : ℤ) × (signed neg p ≡ parsed z)) ↔ ((n : ℕ) × (p ≡ parsed n) × InRange neg n)
signed_iff neg (refused e) = (λ x. absurd cc, λ x. absurd cc)
signed_iff false (parsed n) = elim (Bool-cases (leb two_63 n)) [
  | inl big ↦ rw big (λ x. absurd cc, λ x. absurd (ground (arith, x.1)))
  | inr small ↦ rw small (λ x. (n, refl, ground arith), λ x. (pos n, refl))
]
signed_iff true (parsed n) = elim (Bool-cases (ltb two_63 n)) [
  | inl big ↦ rw big (λ x. absurd cc, λ x. absurd (ground (arith, x.1)))
  | inr small ↦ rw small (λ x. (n, refl, ground arith), λ x. (negate n, refl))
]

-- A decimal numeral in the range of an int64, with a sign or without.
abbrev pub IsInt64 : String → Type 0
IsInt64 String.[] = ⊥
IsInt64 (String.◌∷◌ c s) =
    ((code c ≡ 45) × ((n : ℕ) × Numeral s n × InRange true n))
    ⊎ ((code c ≡ 43) × ((n : ℕ) × Numeral s n × InRange false n))
    ⊎ ((n : ℕ) × Numeral (c ◂ s) n × InRange false n)

parse_signed_iff :
    (neg : Bool) (s : String)
    → ((z : ℤ) × (signed neg (parse_uint s) ≡ parsed z)) ↔ ((n : ℕ) × Numeral s n × InRange neg n)
parse_signed_iff neg s = (
  λ x. let (n, e, r) = (signed_iff neg (parse_uint s)).0 x in (n, ((parse_uint_iff s n).0 e).0, r),
  λ (n, numeral, r).
      (signed_iff neg (parse_uint s)).1 (n, (parse_uint_iff s n).1 (numeral, in_64 neg n r), r),
)
  where
    in_64 : (neg : Bool) (n : ℕ) → InRange neg n → n < two_64
    in_64 true n r = omega arith
    in_64 false n r = omega arith

-- A numeral starts with no sign.
Numeral-unsigned :
    (c : Char) (s : String) (n : ℕ) → Numeral (c ◂ s) n → (code c ≢ 45) × (code c ≢ 43)
unfolding scan_digits
Numeral-unsigned c s n (_, e) = (λ h. ground arith, λ h. ground arith)

pub parse_int_iff : (s : String) → ((z : ℤ) × (parse_int s ≡ parsed z)) ↔ IsInt64 s
unfolding parse_int
parse_int_iff String.[] =
    (λ x. let (n, numeral, r) = (parse_signed_iff false "").0 x in numeral.0 refl, λ x. absurd x)
parse_int_iff (String.◌∷◌ c s) = elim (Bool-cases (nat_eq (code c) 45)) [
  | inl minus ↦ rw minus (
    λ x. inl (ground arith, (parse_signed_iff true s).0 x),
    λ x. elim x [
      | inl (_, y) ↦ (parse_signed_iff true s).1 y
      | inr (inl (e, y)) ↦ absurd (ground arith)
      | inr (inr (n, y, r)) ↦ absurd ((Numeral-unsigned c s n y).0 (ground arith))
    ],
  )
  | inr unminus ↦ elim (Bool-cases (nat_eq (code c) 43)) [
    | inl plus ↦
        rw (unminus, plus)
          (
            λ x. inr (inl (ground arith, (parse_signed_iff false s).0 x)),
            λ x. elim x [
              | inl (e, y) ↦ absurd (ground arith)
              | inr (inl (e, y)) ↦ (parse_signed_iff false s).1 y
              | inr (inr (n, y, r)) ↦ absurd ((Numeral-unsigned c s n y).1 (ground arith))
            ],
          )
    | inr unplus ↦
        rw (unminus, unplus)
          (
            λ x. inr (inr ((parse_signed_iff false (c ◂ s)).0 x)),
            λ x. elim x [
              | inl (e, y) ↦ absurd (ground arith)
              | inr (inl (e, y)) ↦ absurd (ground arith)
              | inr (inr y) ↦ (parse_signed_iff false (c ◂ s)).1 y
            ],
          )
  ]
]
