-- ===== src/Copy/Memory.antt =====
-- A memory of cells at addresses, and commands that read it and allocate in it.
use mathlib.Core.List.{append-nil, append_assoc}
use fms_lm_eval_service.Prelude.{
  ℕ, zero, suc, ◌≤◌, ◌<◌, ◌≡◌, refl, sym, ap, Option, none, some, List, [], ◌∷◌, ◌++◌, length,
  length-append, arith,
}

abbrev pub Address : Type 0
Address = ℕ

unfoldable pub get_elem? {ℓ} : {A : Type ℓ} → List A → ℕ → Option A
get_elem? [] n = none
get_elem? (x ∷ xs) zero = some x
get_elem? (x ∷ xs) (suc n) = get_elem? xs n

-- The list with another element at the index, if it reaches that far.
unfoldable pub set {ℓ} : {A : Type ℓ} → List A → ℕ → A → List A
set [] n y = []
set (x ∷ xs) zero y = y ∷ xs
set (x ∷ xs) (suc n) y = x ∷ set xs n y

unfoldable pub take {ℓ} : {A : Type ℓ} → ℕ → List A → List A
take zero xs = []
take (suc n) [] = []
take (suc n) (x ∷ xs) = x ∷ take n xs

module _ {ℓ} {A : Type ℓ} where
  pub take-append : (xs ys : List A) → take (length xs) (xs ++ ys) ≡ xs
  unfolding take
  take-append [] ys = refl
  take-append (x ∷ xs) ys = ap (λ l. x ∷ l) (take-append xs ys)

  pub length-set : (xs : List A) (n : ℕ) (y : A) → length (set xs n y) ≡ length xs
  unfolding set
  length-set [] n y = refl
  length-set (x ∷ xs) zero y = refl
  length-set (x ∷ xs) (suc n) y = ap suc (length-set xs n y)

  -- A write in the first part.
  pub set-append_left :
      (xs ys : List A) (n : ℕ) (y : A) → n < length xs → set (xs ++ ys) n y ≡ set xs n y ++ ys
  unfolding set
  set-append_left [] ys n y h = absurd (omega arith)
  set-append_left (x ∷ xs) ys zero y h = refl
  set-append_left (x ∷ xs) ys (suc n) y h =
      ap (λ l. x ∷ l) (set-append_left xs ys n y (omega arith))

  pub get_elem?-append :
      (xs ys : List A) (n : ℕ) (v : A) → get_elem? xs n ≡ some v → get_elem? (xs ++ ys) n ≡ some v
  unfolding get_elem?
  get_elem?-append [] ys n v h = absurd cc
  get_elem?-append (x ∷ xs) ys zero v h = h
  get_elem?-append (x ∷ xs) ys (suc n) v h = get_elem?-append xs ys n v h

  pub get_elem?-length : (xs : List A) (x : A) → get_elem? (xs ++ (x ∷ [])) (length xs) ≡ some x
  unfolding get_elem?
  get_elem?-length [] x = refl
  get_elem?-length (y ∷ xs) x = get_elem?-length xs x

  pub get_elem?-set :
      (xs : List A) (n : ℕ) (v y : A) → get_elem? xs n ≡ some v → get_elem? (set xs n y) n ≡ some y
  unfolding get_elem? set
  get_elem?-set [] n v y h = absurd cc
  get_elem?-set (x ∷ xs) zero v y h = refl
  get_elem?-set (x ∷ xs) (suc n) v y h = get_elem?-set xs n v y h

  -- A write behind the first part leaves that part alone.
  pub set-append :
      (xs ys : List A) (n : ℕ) (y : A)
      → length xs ≤ n
      → (zs : List A) × (set (xs ++ ys) n y ≡ xs ++ zs)
  unfolding set
  set-append [] ys n y h = (set ys n y, refl)
  set-append (x ∷ xs) ys zero y h = absurd (omega arith)
  set-append (x ∷ xs) ys (suc n) y h =
      let (zs, e) = set-append xs ys n y (omega arith) in (zs, ap (λ l. x ∷ l) e)

  -- The first memory, with more cells behind it.
  abbrev pub Grows : List A → List A → Type ℓ
  Grows m m' = (more : List A) × (m' ≡ m ++ more)

  pub Grows-refl : (m : List A) → Grows m m
  Grows-refl m = ([], sym (append-nil m))

  pub Grows-trans : (m1 m2 m3 : List A) → Grows m1 m2 → Grows m2 m3 → Grows m1 m3
  Grows-trans m1 m2 m3 (xs, e) (ys, f) = (xs ++ ys, rw (f, e) (append_assoc m1 xs ys))

  pub Grows-get :
      (m m' : List A) (a : Address) (v : A)
      → Grows m m'
      → get_elem? m a ≡ some v
      → get_elem? m' a ≡ some v
  Grows-get m m' a v (more, e) h = rw e (get_elem?-append m more a v h)

  pub Grows-length : (m m' : List A) → Grows m m' → length m ≤ length m'
  Grows-length m m' (more, e) = rw e (omega (arith, length-append m more))

-- A command on a memory of cells; `none` is a fault, such as a read of what is not there.
abbrev pub Cmd : Type 0 → Type 0 → Type 0
Cmd C A = List C → Option (A × List C)

abbrev pub pure : {C A : Type 0} → A → Cmd C A
pure a m = some (a, m)

infixl 5 ◌>>=◌
abbrev pub ◌>>=◌ : {C A B : Type 0} → Cmd C A → (A → Cmd C B) → Cmd C B
◌>>=◌ c f m = elim (c m) [ none ↦ none | some (a, m') ↦ f a m' ]

module _ {C : Type 0} where
  -- The content of a cell, as `read` takes it.
  abbrev pub found : {A : Type 0} → List C → Option A → Option (A × List C)
  found m none = none
  found m (some a) = some (a, m)

  abbrev pub read_as : {A : Type 0} → (C → Option A) → Option C → Option A
  read_as read none = none
  read_as read (some c) = read c

  unfoldable pub load : {A : Type 0} → (C → Option A) → Address → Cmd C A
  load read a m = found m (read_as read (get_elem? m a))

  abbrev pub alloc : C → Cmd C Address
  alloc c m = some (length m, m ++ (c ∷ []))

  -- What a command gives, without the memory behind it.
  abbrev pub result : {A : Type 0} → Option (A × List C) → Option A
  result none = none
  result (some (a, m)) = some a

  -- A write to a cell that is there.
  abbrev pub assign : Address → C → Cmd C (Unit {0})
  assign a c m = some (tt, set m a c)

  abbrev pub fault : {A : Type 0} → Cmd C A
  fault m = none
