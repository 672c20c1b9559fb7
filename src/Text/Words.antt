-- ===== src/Text/Words.antt =====
-- Texts of plain characters, and the words between blanks.
use Prim.Native.String.{◌∷◌ as ◌◂◌}
use text.Mathlib.TextLemmas.{nil-append, cons-append}
use fms_lm_eval_service.Prelude.{
  ℕ, zero, suc, ◌/◌, ◌%◌, Char, code, String, ◌<>◌, Bool, true, false, ◌&&◌, ◌||◌, Bool-cases, ◌≡◌,
  refl, List, [], ◌∷◌, All, inl, inr, nat_eq, leb, arith, ltb, if◌then◌else◌,
}
use fms_lm_eval_service.Prelude.Int.{ℤ, pos, negsuc}
use fms_lm_eval_service.Text.Strings.{is_space, join}
use fms_lm_eval_service.Text.Decimal.{digit, write_digits, format_nat, itoa}

-- A letter, a digit, or one of %+,-./:=@_ .
unfoldable pub plain_code : ℕ → Bool
plain_code n =
    (leb 97 n && leb n 122)
    || (leb 65 n && leb n 90)
    || (leb 43 n && leb n 58)
    || nat_eq n 37
    || nat_eq n 61
    || nat_eq n 64
    || nat_eq n 95

unfoldable pub all_plain : String → Bool
all_plain String.[] = true
all_plain (String.◌∷◌ c s) = plain_code (code c) && all_plain s

abbrev pub IsPlain : String → Type 0
IsPlain s = all_plain s ≡ true

-- The text is not empty.
abbrev pub IsSolid : String → Type 0
IsSolid String.[] = ⊥
IsSolid (String.◌∷◌ c s) = Unit

abbrev pub IsWord : String → Type 0
IsWord s = IsPlain s × IsSolid s

-- A character in front of the first of some texts.
abbrev pub onto : Char → List String → List String
onto c [] = (c ◂ "") ∷ []
onto c (w ∷ ws) = (c ◂ w) ∷ ws

-- `strings.Split(s, " ")`
unfoldable pub split_blanks : String → List String
split_blanks String.[] = "" ∷ []
split_blanks (String.◌∷◌ c s) =
    let rest = split_blanks s in if is_space c then "" ∷ rest else onto c rest

abbrev pub keep_solid : String → List String → List String
keep_solid String.[] ws = ws
keep_solid (String.◌∷◌ c s) ws = (c ◂ s) ∷ ws

abbrev pub drop_empty : List String → List String
drop_empty [] = []
drop_empty (w ∷ ws) = keep_solid w (drop_empty ws)

-- The words between blanks.
unfoldable pub fields : String → List String
unfolding split_blanks
fields s = drop_empty (split_blanks s)

pub IsPlain-append : (s t : String) → IsPlain s → IsPlain t → IsPlain (s <> t)
unfolding all_plain
IsPlain-append String.[] t p q = rw (nil-append t) q
IsPlain-append (String.◌∷◌ c s) t p q = rw (cons-append c s t) (ground (arith, IsPlain-append s t))

pub IsSolid-append : (s t : String) → IsSolid s → IsSolid (s <> t)
IsSolid-append String.[] t h = absurd h
IsSolid-append (String.◌∷◌ c s) t h = rw (cons-append c s t) tt

pub IsPlain-join :
    (ws : List String) (sep : String) → All IsPlain ws → IsPlain sep → IsPlain (join ws sep)
unfolding join all_plain
IsPlain-join [] sep h p = refl
IsPlain-join (w ∷ []) sep h p = h.0
IsPlain-join (w ∷ v ∷ ws) sep h p =
    IsPlain-append w _ h.0 (IsPlain-append sep _ p (IsPlain-join (v ∷ ws) sep h.1 p))

both_true : (a b : Bool) → (a && b) ≡ true → (a ≡ true) × (b ≡ true)
both_true true b e = (refl, e)
both_true false b h = absurd cc

All-IsPlain : (ws : List String) → All IsWord ws → All IsPlain ws
All-IsPlain [] h = tt
All-IsPlain (w ∷ ws) h = (h.0.0, All-IsPlain ws h.1)

All-IsSolid : (ws : List String) → All IsWord ws → All IsSolid ws
All-IsSolid [] h = tt
All-IsSolid (w ∷ ws) h = (h.0.1, All-IsSolid ws h.1)

plain-solid : (c : Char) → plain_code (code c) ≡ true → is_space c ≡ false
unfolding plain_code
plain-solid c h = ground arith

split_blanks-plain : (w : String) → IsPlain w → split_blanks w ≡ w ∷ []
unfolding split_blanks all_plain
split_blanks-plain String.[] h = refl
split_blanks-plain (String.◌∷◌ c s) h = ground (arith, split_blanks-plain s, plain-solid c)

split_blanks-solid :
    (c : Char) (s : String) → is_space c ≡ false → split_blanks (c ◂ s) ≡ onto c (split_blanks s)
unfolding split_blanks
split_blanks-solid c s h = rw h refl

split_blanks-blank : (s : String) → split_blanks (" " <> s) ≡ "" ∷ split_blanks s
unfolding split_blanks
split_blanks-blank s = rw (cons-append " " "" s, nil-append s) refl

split_blanks-append : (w s : String) → IsPlain w → split_blanks (w <> " " <> s) ≡ w ∷ split_blanks s
unfolding all_plain
split_blanks-append String.[] s h = rw (nil-append (" " <> s)) (split_blanks-blank s)
split_blanks-append (String.◌∷◌ c w) s h =
    let (first, rest) = both_true (plain_code (code c)) (all_plain w) h in
    rw
      (
        cons-append c w (" " <> s),
        split_blanks-solid c (w <> " " <> s) (plain-solid c first),
        split_blanks-append w s rest,
      )
      refl

split_blanks-join :
    (w : String) (ws : List String)
    → All IsPlain (w ∷ ws)
    → split_blanks (join (w ∷ ws) " ") ≡ w ∷ ws
unfolding join
split_blanks-join w [] h = split_blanks-plain w h.0
split_blanks-join w (v ∷ ws) h =
    rw (split_blanks-append w (join (v ∷ ws) " ") h.0, split_blanks-join v ws h.1) refl

drop_empty-words : (ws : List String) → All IsSolid ws → drop_empty ws ≡ ws
drop_empty-words [] h = refl
drop_empty-words (String.[] ∷ ws) h = absurd h.0
drop_empty-words (String.◌∷◌ c s ∷ ws) h = rw (drop_empty-words ws h.1) refl

digit-plain : (n : ℕ) → plain_code (code (digit n)) ≡ true
unfolding digit plain_code
digit-plain zero = refl
digit-plain (suc zero) = refl
digit-plain (suc (suc zero)) = refl
digit-plain (suc (suc (suc zero))) = refl
digit-plain (suc (suc (suc (suc zero)))) = refl
digit-plain (suc (suc (suc (suc (suc zero))))) = refl
digit-plain (suc (suc (suc (suc (suc (suc zero)))))) = refl
digit-plain (suc (suc (suc (suc (suc (suc (suc zero))))))) = refl
digit-plain (suc (suc (suc (suc (suc (suc (suc (suc zero)))))))) = refl
digit-plain (suc (suc (suc (suc (suc (suc (suc (suc (suc n))))))))) = refl

write_digits-IsPlain : (fuel n : ℕ) (out : String) → IsPlain out → IsPlain (write_digits fuel n out)
unfolding write_digits all_plain
write_digits-IsPlain zero n out h = h
write_digits-IsPlain (suc fuel) n out h = ground (
  arith,
  digit-plain n,
  digit-plain (n % 10),
  write_digits-IsPlain fuel (n / 10) (digit (n % 10) ◂ out),
)

write_digits-IsSolid : (fuel n : ℕ) (out : String) → IsSolid (write_digits (suc fuel) n out)
unfolding write_digits
write_digits-IsSolid zero n out = elim (Bool-cases (ltb n 10)) [
  | inl small ↦ rw small tt
  | inr big ↦ rw big tt
]
write_digits-IsSolid (suc fuel) n out = elim (Bool-cases (ltb n 10)) [
  | inl small ↦ rw small tt
  | inr big ↦ rw big (write_digits-IsSolid fuel (n / 10) (digit (n % 10) ◂ out))
]

format_nat-IsWord : (n : ℕ) → IsWord (format_nat n)
unfolding format_nat all_plain
format_nat-IsWord n = (write_digits-IsPlain (suc n) n "" refl, write_digits-IsSolid n n "")

pub itoa-IsWord : (z : ℤ) → IsWord (itoa z)
unfolding itoa all_plain plain_code
itoa-IsWord (pos n) = format_nat-IsWord n
itoa-IsWord (negsuc n) = ((format_nat-IsWord (suc n)).0, tt)

pub IsSolid-append_right : (s t : String) → IsSolid t → IsSolid (s <> t)
IsSolid-append_right String.[] t h = rw (nil-append t) h
IsSolid-append_right (String.◌∷◌ c s) t h = rw (cons-append c s t) tt

pub IsSolid-join :
    (w : String) (ws : List String) (sep : String) → IsSolid w → IsSolid (join (w ∷ ws) sep)
unfolding join
IsSolid-join w [] sep h = h
IsSolid-join w (v ∷ ws) sep h = IsSolid-append w _ h

-- Words that were joined by blanks are read back.
pub fields-join : (ws : List String) → All IsWord ws → fields (join ws " ") ≡ ws
unfolding fields join split_blanks
fields-join [] h = refl
fields-join (w ∷ ws) h =
    rw (split_blanks-join w ws (All-IsPlain (w ∷ ws) h))
      (drop_empty-words (w ∷ ws) (All-IsSolid (w ∷ ws) h))
