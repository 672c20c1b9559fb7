-- ===== src/Copy/Copied.antt =====
-- What a command that copies does: it ends, leaves the cells there as they are, and its result meets
-- a postcondition in the memory after it.
use fms_lm_eval_service.Prelude.{
  ◌≤◌, ◌≡◌, refl, Option, none, some, List, [], ◌∷◌, length, arith, All,
}
use fms_lm_eval_service.Copy.Memory.{
  Address, Cmd, pure, ◌>>=◌, Grows, Grows-refl, Grows-trans, Grows-length,
}

module _ {C A : Type 0} where
  abbrev pub Copied : List C → Cmd C A → (List C → A → Type 0) → Type 0
  Copied m c P = (x : A) × (m' : List C) × (c m ≡ some (x, m')) × Grows m m' × P m' x

  pub Copied-pure : (m : List C) (x : A) (P : List C → A → Type 0) → P m x → Copied m (pure x) P
  Copied-pure m x P h = (x, m, refl, Grows-refl m, h)

  pub Copied-weaken :
      (m : List C) (c : Cmd C A) (P Q : List C → A → Type 0)
      → Copied m c P
      → ((m' : List C) (x : A) → Grows m m' → P m' x → Q m' x)
      → Copied m c Q
  Copied-weaken m c P Q (x, m', e, g, h) k = (x, m', e, g, k m' x g h)

pub Copied-bind :
    {C A B : Type 0} (m : List C) (c : Cmd C A) (f : A → Cmd C B) (P : List C → A → Type 0)
    (Q : List C → B → Type 0)
    → Copied m c P
    → ((x : A) (m' : List C) → Grows m m' → P m' x → Copied m' (f x) Q)
    → Copied m (c >>= f) Q
Copied-bind m c f P Q (x, m', e, g, h) k =
    let (y, m'', e', g', h') = k x m' g h in
    (y, m'', rw (e, ◌>>=◌) e', Grows-trans m m' m'' g g', h')

-- The address lies behind the cells of the memory; nil does, too.
abbrev pub Fresh {ℓ} : {C : Type ℓ} → List C → Option Address → Type 0
Fresh m none = Unit
Fresh m (some a) = length m ≤ a

pub Fresh-Grows {ℓ} :
    {C : Type ℓ} (m m' : List C) (p : Option Address) → Grows m m' → Fresh m' p → Fresh m p
Fresh-Grows m m' none g h = tt
Fresh-Grows m m' (some a) g h = omega (arith, Grows-length m m' g)

pub All-Fresh-Grows {ℓ} :
    {C : Type ℓ} (m m' : List C) (ps : List (Option Address))
    → Grows m m'
    → All (Fresh m') ps
    → All (Fresh m) ps
All-Fresh-Grows m m' [] g h = tt
All-Fresh-Grows m m' (p ∷ ps) g h = (Fresh-Grows m m' p g h.0, All-Fresh-Grows m m' ps g h.1)
