-- ===== src/Prelude/Lists.antt =====
-- Predicates on lists by recursion, and lengths in native numbers.
use Prim.Native.Nat.{ℕ, suc, ◌+◌}
use mathlib.Core.Path.{◌≡◌, refl, sym, subst}
use mathlib.Core.Logic.{◌⊎◌, inl, inr}
use mathlib.Core.List.{List, [], ◌∷◌, ◌++◌}
use native.Mathlib.Omega.{arith}

module _ {ℓ} {A : Type ℓ} where
  abbrev pub length : List A → ℕ
  length [] = 0
  length (x ∷ xs) = suc (length xs)

  pub length-append : (xs ys : List A) → length (xs ++ ys) ≡ length xs + length ys
  length-append [] ys = omega arith
  length-append (x ∷ xs) ys = omega (arith, length-append xs ys)

-- A predicate of every element. It computes to tuples, which the tactics read and build.
abbrev pub All {ℓ κ} : {A : Type ℓ} → (A → Type κ) → List A → Type κ
All P [] = Unit
All P (x ∷ xs) = P x × All P xs

-- A predicate of some element.
abbrev pub Any {ℓ} : {A : Type ℓ} → (A → Type 0) → List A → Type 0
Any P [] = ⊥
Any P (x ∷ xs) = P x ⊎ Any P xs

pub All-append {ℓ κ} :
    {A : Type ℓ} (P : A → Type κ) (xs ys : List A) → All P xs → All P ys → All P (xs ++ ys)
All-append P [] ys hx hy = hy
All-append P (x ∷ xs) ys hx hy = (hx.0, All-append P xs ys hx.1 hy)

All-weaken {ℓ κ} :
    {A : Type ℓ} (P Q : A → Type κ) → ((x : A) → P x → Q x) → (xs : List A) → All P xs → All Q xs
All-weaken P Q f [] h = tt
All-weaken P Q f (x ∷ xs) h = (f x h.0, All-weaken P Q f xs h.1)

module _ {A : Type 0} where
  pub Any-found : (P : A → Type 0) (x : A) (xs : List A) → Any (λ y. y ≡ x) xs → P x → Any P xs
  Any-found P x [] k p = absurd k
  Any-found P x (y ∷ xs) (inl e) p = inl (subst P (sym e) p)
  Any-found P x (y ∷ xs) (inr k) p = inr (Any-found P x xs k p)

  Any-append : (x : A) (xs ys : List A) → Any (λ y. y ≡ x) ys → Any (λ y. y ≡ x) (xs ++ ys)
  Any-append x [] ys k = k
  Any-append x (y ∷ xs) ys k = inr (Any-append x xs ys k)

  members : (xs : List A) → All (λ x. Any (λ y. y ≡ x) xs) xs
  members [] = tt
  members (x ∷ xs) = (
    inl refl,
    All-weaken (λ z. Any (λ y. y ≡ z) xs) (λ z. Any (λ y. y ≡ z) (x ∷ xs)) (λ z k. inr k) xs
        (members xs),
  )

  -- The elements of a list are in what it is the end of.
  pub end_members : (xs ys : List A) → All (λ x. Any (λ y. y ≡ x) (xs ++ ys)) ys
  end_members xs ys =
      All-weaken (λ z. Any (λ y. y ≡ z) ys) (λ z. Any (λ y. y ≡ z) (xs ++ ys))
        (λ z. Any-append z xs ys) ys (members ys)

  pub All-Any : (P : A → Type 0) (xs : List A) (x : A) → All P xs → Any (λ y. y ≡ x) xs → P x
  All-Any P [] x h k = absurd k
  All-Any P (y ∷ xs) x h (inl e) = subst P e h.0
  All-Any P (y ∷ xs) x h (inr k) = All-Any P xs x h.1 k
