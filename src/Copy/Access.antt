-- ===== src/Copy/Access.antt =====
-- Reads and writes through a slice, as a program does with a resource (Layout) that it has copied.
use fms_lm_eval_service.Prelude.{
  ℕ, ◌<◌, ◌≡◌, refl, sym, ◌∙◌, ltb, true, Bool-cases, inl, inr, Option, none, some, List, [], ◌++◌,
  length, arith, if◌then◌else◌,
}
use fms_lm_eval_service.Copy.Memory.{
  Address, Cmd, pure, ◌>>=◌, load, assign, fault, result, take, take-append, set, set-append_left,
  length-set, get_elem?, get_elem?-set, read_as,
}
use fms_lm_eval_service.Copy.Layout.{Machinery, Slice, Cell, At, Elements, Lists}

module _ {T : Machinery} {V : Type 0} (read : Cell T → Option (List V)) where
  -- The elements of a slice.
  abbrev pub elements : Option Slice → Cmd (Cell T) (List V)
  elements none = pure []
  elements (some s) = do array ← load read s.array; pure (take s.length array)

  loaded :
      (m : List (Cell T)) (a : Address) (vs : List V)
      → At m read a vs
      → load read a m ≡ some (vs, m)
  loaded m a vs h = unfold load in rw (h, load) refl

  module _ (write : List V → Cell T) where
    -- `s[i] = x`; an index that is not below the slice's length is a fault.
    abbrev pub store_element : Option Slice → ℕ → V → Cmd (Cell T) (Unit {0})
    store_element none i x = fault
    store_element (some s) i x =
        if ltb i s.length
        then (do array ← load read s.array; assign s.array (write (set array i x)))
        else fault

    -- The elements of the second slice after an element of the first is written.
    abbrev pub seen_after : Option Slice → ℕ → V → Option Slice → List (Cell T) → Option (List V)
    seen_after p i x q m = result ((do u ← store_element p i x; elements q) m)

    module _ (inverse : (vs : List V) → read (write vs) ≡ some vs) (m : List (Cell T)) where
      written :
          (o : Option (Cell T)) (a : Address) (vs vs' : List V)
          → get_elem? m a ≡ o
          → read_as read o ≡ some vs
          → At (set m a (write vs')) read a vs'
      written none a vs vs' e h = absurd cc
      written (some c) a vs vs' e h = rw (get_elem?-set m a c (write vs') e) (inverse vs')

      seen_at :
          (s : Slice) (i : ℕ) (x : V) (vs : List V)
          → Elements m read s vs
          → i < length vs
          → seen_after (some s) i x (some s) m ≡ some (set vs i x)
      seen_at s i x vs (spare, h, e) small =
          let there =
            written (get_elem? m s.array) s.array (vs ++ spare) (set (vs ++ spare) i x) refl h in
          let after = set m s.array (write (set (vs ++ spare) i x)) in
          let taken : take s.length (set (vs ++ spare) i x) ≡ set vs i x =
            rw (set-append_left vs spare i x small, e ∙ sym (length-set vs i x))
              (take-append (set vs i x) spare) in
          let bound : ltb i s.length ≡ true = ground arith in
          rw
            (
              bound,
              ◌>>=◌,
              loaded m s.array (vs ++ spare) h,
              loaded after s.array (set (vs ++ spare) i x) there,
              taken,
            )
            refl

      -- What is read through a slice, after a write through it.
      pub seen_after-Lists :
          (p : Option Slice) (i : ℕ) (x : V) (vs : List V)
          → Lists m read p vs
          → seen_after p i x p m ≡ (if ltb i (length vs) then some (set vs i x) else none)
      seen_after-Lists none i x vs h = rw h (ground arith)
      seen_after-Lists (some s) i x vs (spare, h, e) = elim (Bool-cases (ltb i (length vs))) [
        | inl small ↦ rw small (seen_at s i x vs (spare, h, e) (ground arith))
        | inr big ↦ rw (e, big) refl
      ]
