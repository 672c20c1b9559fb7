-- ===== src/Text/ParseBase.antt =====
-- `strconv.ParseInt(s, 0, 64)`, which the package flag reads an int with: a prefix gives the base,
-- and underscores may separate digits.
use Prim.Native.String.{◌∷◌ as ◌◂◌}
use fms_lm_eval_service.Prelude.{
  ℕ, ◌+◌, ◌-◌, ◌*◌, ◌/◌, Char, code, String, Bool, true, false, not, ◌&&◌, ◌||◌, leb, nat_eq, ◌<>◌,
  if◌then◌else◌, ◌==◌,
}
use fms_lm_eval_service.Prelude.Int.{ℤ}
use fms_lm_eval_service.Text.Decimal.{is_digit}
use fms_lm_eval_service.Text.ParseInt.{
  Parsed, parsed, refused, err_syntax, err_range, two_64, split_sign, signed,
}

-- strconv's `lower`, which sets the bit 32, as far as it is looked at: on letters.
abbrev pub lower : ℕ → ℕ
lower c = if leb 65 c && leb c 90 then c + 32 else c

abbrev pub is_underscore : Char → Bool
is_underscore c = nat_eq (code c) 95

-- The value of a digit or a letter; 36 and more for no digit of any base.
abbrev pub digit_value : Char → ℕ
digit_value c =
    if is_digit c
    then code c - b'0'
    else if leb 97 (lower (code c)) && leb (lower (code c)) 122
    then lower (code c) - 87
    else 255

-- The loop of `ParseUint`, where underscores are passed over.
unfoldable pub parse_based : ℕ → String → ℕ → Parsed ℕ
parse_based base String.[] n = parsed n
parse_based base (String.◌∷◌ c s) n =
    let same = parse_based base s n in
    let rest = parse_based base s (n * base + digit_value c) in
    if is_underscore c
    then same
    else if leb base (digit_value c)
    then refused err_syntax
    else if leb ((two_64 - 1) / base + 1) n || leb two_64 (n * base + digit_value c)
    then refused err_range
    else rest

abbrev pub has_underscore : String → Bool
has_underscore String.[] = false
has_underscore (String.◌∷◌ c s) = is_underscore c || has_underscore s

-- What `underscoreOK` has seen last: nothing yet, a digit or the prefix, an underscore, another.
pub data Seen : Type 0 where
  start_seen digit_seen underscore_seen other_seen : Seen

abbrev pub is_underscore_seen : Seen → Bool
is_underscore_seen underscore_seen = true
is_underscore_seen _ = false

abbrev pub is_digit_seen : Seen → Bool
is_digit_seen digit_seen = true
is_digit_seen _ = false

unfoldable pub underscore_loop : Bool → String → Seen → Bool
underscore_loop hex String.[] seen = not (is_underscore_seen seen)
underscore_loop hex (String.◌∷◌ c s) seen =
    let after_digit = underscore_loop hex s digit_seen in
    let after_underscore = underscore_loop hex s underscore_seen in
    let after_other = underscore_loop hex s other_seen in
    if is_digit c || (hex && (leb 97 (lower (code c)) && leb (lower (code c)) 102))
    then after_digit
    else if is_underscore c
    then is_digit_seen seen && after_underscore
    else not (is_underscore_seen seen) && after_other

-- The base that a prefix gives, and the text behind the prefix; `none` is no prefix of two letters.
pub record Based : Type 0 where
  pub base : ℕ
  pub digits : String

abbrev pub prefix_base : Char → ℕ
prefix_base c =
    if nat_eq (lower (code c)) 98
    then 2
    else if nat_eq (lower (code c)) 111
    then 8
    else if nat_eq (lower (code c)) 120
    then 16
    else 0

-- The digits behind a leading zero: a letter with a character behind it makes a prefix.
abbrev pub behind_zero : String → Based
behind_zero String.[] = record { base = 8; digits = "" }
behind_zero (String.◌∷◌ c String.[]) = record { base = 8; digits = c ◂ "" }
behind_zero (String.◌∷◌ c (String.◌∷◌ d s)) =
    if nat_eq (prefix_base c) 0
    then record { base = 8; digits = c ◂ d ◂ s }
    else record { base = prefix_base c; digits = d ◂ s }

abbrev pub based : String → Based
based String.[] = record { base = 10; digits = "" }
based (String.◌∷◌ c s) =
    if nat_eq (code c) b'0' then behind_zero s else record { base = 10; digits = c ◂ s }

-- `underscoreOK`, behind the sign.
abbrev behind_letter : Char → String → Bool
behind_letter c s =
    if nat_eq (prefix_base c) 0
    then underscore_loop false ("0" <> (c ◂ s)) start_seen
    else underscore_loop (nat_eq (prefix_base c) 16) s digit_seen

abbrev pub underscore_ok : String → Bool
underscore_ok String.[] = true
underscore_ok (String.◌∷◌ c String.[]) = underscore_loop false (c ◂ "") start_seen
underscore_ok (String.◌∷◌ c (String.◌∷◌ d s)) =
    if nat_eq (code c) b'0' then behind_letter d s else underscore_loop false (c ◂ d ◂ s) start_seen

abbrev pub checked : String → Parsed ℕ → Parsed ℕ
checked s (refused e) = refused e
checked s (parsed n) =
    if has_underscore s && not (underscore_ok s) then refused err_syntax else parsed n

unfoldable pub parse_uint_0 : String → Parsed ℕ
unfolding parse_based underscore_loop
parse_uint_0 s =
    if s == ""
    then refused err_syntax
    else let b = based s in checked s (parse_based b.base b.digits 0)

unfoldable pub parse_int_0 : String → Parsed ℤ
unfolding parse_uint_0
parse_int_0 s = let (neg, digits) = split_sign s in signed neg (parse_uint_0 digits)
