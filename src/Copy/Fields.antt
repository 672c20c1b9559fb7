-- ===== src/Copy/Fields.antt =====
-- The fields of a deep copy one by one (api/v1beta1/zz_generated.deepcopy.go).
use mathlib.Core.List.{append-nil}
use fms_lm_eval_service.Prelude.{
  ◌∙◌, ◌≡◌, refl, sym, subst, Option, none, some, List, [], ◌∷◌, ◌++◌, length, arith,
}
use fms_lm_eval_service.Copy.Memory.{
  Address, Cmd, pure, load, alloc, read_as, get_elem?, Grows, Grows-refl, Grows-get, Grows-trans,
  get_elem?-length, take, take-append,
}
use fms_lm_eval_service.Copy.Layout.{
  Machinery, Slice, array_of, Cell, At, Points, Elements, Lists, Slices,
}
use fms_lm_eval_service.Copy.Generated.{copy_content, copy_slice, deep_copy_by}
use fms_lm_eval_service.Copy.Copied.{
  Copied, Copied-pure, Copied-weaken, Copied-bind, Fresh, Fresh-Grows,
}

module _ {T : Machinery} {V : Type 0} (read : Cell T → Option V) where
  read_as-kept :
      (o o' : Option (Cell T)) (v : V)
      → read_as read o ≡ some v
      → ((c : Cell T) → o ≡ some c → o' ≡ some c)
      → read_as read o' ≡ some v
  read_as-kept none o' v h k = absurd cc
  read_as-kept (some c) o' v h k = rw (k c refl) h

  pub At-Grows :
      (m m' : List (Cell T)) (a : Address) (v : V) → Grows m m' → At m read a v → At m' read a v
  At-Grows m m' a v g h =
      read_as-kept (get_elem? m a) (get_elem? m' a) v h (λ c e. Grows-get m m' a c g e)

  pub Points-Grows :
      (m m' : List (Cell T)) (p : Option Address) (v : Option V)
      → Grows m m'
      → Points m read p v
      → Points m' read p v
  Points-Grows m m' none v g h = h
  Points-Grows m m' (some a) none g h = h
  Points-Grows m m' (some a) (some v) g h = At-Grows m m' a v g h

  pub load-Copied :
      (m : List (Cell T)) (a : Address) (v : V)
      → At m read a v
      → Copied m (load read a) (λ m' x. x ≡ v)
  load-Copied m a v h = (v, m, unfold load in rw (h, load) refl, Grows-refl m, refl)

  module _ (write : V → Cell T) (inverse : (x : V) → read (write x) ≡ some x) where
    pub alloc-Copied :
        (m : List (Cell T)) (v : V)
        → Copied m (alloc (write v)) (λ m' a. At m' read a v × Fresh m (some a))
    alloc-Copied m v = (
      length m,
      m ++ (write v ∷ []),
      refl,
      (write v ∷ [], refl),
      (rw (get_elem?-length m (write v)) (inverse v), omega arith),
    )

    -- A field is copied into a cell behind all those that were there at the start.
    pub copy_content-Points :
        (b m : List (Cell T)) (p : Option Address) (v : Option V)
        → Grows b m
        → Points b read p v
        → Copied m (copy_content read write p) (λ m' q. Points m' read q v × Fresh b q)
    copy_content-Points b m none v g h = Copied-pure m none _ (h, tt)
    copy_content-Points b m (some a) none g h = absurd h
    copy_content-Points b m (some a) (some v) g h =
        Copied-bind m (load read a) _ (λ m' x. x ≡ v) _ (load-Copied m a v (At-Grows b m a v g h))
          (λ x m1 g1 same.
            Copied-bind m1 (alloc (write x)) (λ a'. pure (some a')) _ _ (alloc-Copied m1 x)
              (λ a' m2 g2 made. Copied-pure m2 (some a') _ (
                subst (λ z. At m2 read a' z) same made.0,
                Fresh-Grows b m1 (some a') (Grows-trans b m m1 g g1) made.1,
              )))

    -- A variable whose content is copied by a command of its own.
    pub deep_copy_by-Copied :
        (b m : List (Cell T)) (into : V → Cmd (Cell T) V) (Q : List (Cell T) → V → Type 0)
        (a : Address) (v : V)
        → ((m m' : List (Cell T)) (x : V) → Grows m m' → Q m x → Q m' x)
        → Grows b m
        → At b read a v
        → ((m1 : List (Cell T)) → Grows b m1 → Copied m1 (into v) Q)
        → Copied m (deep_copy_by read write into (some a)) (λ m' q.
          (a' : Address) × (v' : V) × (q ≡ some a')
          × At m' read a' v'
          × Q m' v'
          × Fresh b (some a'))
    deep_copy_by-Copied b m into Q a v stable g h run =
        Copied-bind m (load read a) _ (λ m' x. x ≡ v) _ (load-Copied m a v (At-Grows b m a v g h))
          (λ x m1 g1 same.
            Copied-bind m1 (into x) _ Q _
              (subst (λ z. Copied m1 (into z) Q) (sym same) (run m1 (Grows-trans b m m1 g g1)))
              (λ v' m2 g2 q.
                Copied-bind m2 (alloc (write v')) (λ a'. pure (some a')) _ _ (alloc-Copied m2 v')
                  (λ a' m3 g3 made. Copied-pure m3 (some a') _ (
                    a',
                    v',
                    refl,
                    made.0,
                    stable m2 m3 v' g3 q,
                    Fresh-Grows b m2 (some a') (Grows-trans b m1 m2 (Grows-trans b m m1 g g1) g2)
                        made.1,
                  ))))

module _ {T : Machinery} {V : Type 0} (read : Cell T → Option (List V)) where
  Elements-Grows :
      (m m' : List (Cell T)) (s : Slice) (vs : List V)
      → Grows m m'
      → Elements m read s vs
      → Elements m' read s vs
  Elements-Grows m m' s vs g (spare, h, e) =
      (spare, At-Grows read m m' s.array (vs ++ spare) g h, e)

  pub Lists-Grows :
      (m m' : List (Cell T)) (p : Option Slice) (vs : List V)
      → Grows m m'
      → Lists m read p vs
      → Lists m' read p vs
  Lists-Grows m m' none vs g h = h
  Lists-Grows m m' (some s) vs g h = Elements-Grows m m' s vs g h

  pub Slices-Grows :
      (m m' : List (Cell T)) (p : Option Slice) (vs : Option (List V))
      → Grows m m'
      → Slices m read p vs
      → Slices m' read p vs
  Slices-Grows m m' none vs g h = h
  Slices-Grows m m' (some s) none g h = h
  Slices-Grows m m' (some s) (some vs) g h = Elements-Grows m m' s vs g h

  module _ (write : List V → Cell T) (inverse : (xs : List V) → read (write xs) ≡ some xs)
      (b : List (Cell T)) where
    -- A slice whose elements are copied by a command of its own that keeps their number.
    pub copy_slice-Copied :
        (m : List (Cell T)) (into : List V → Cmd (Cell T) (List V))
        (Q : List (Cell T) → List V → Type 0) (s : Slice) (vs : List V)
        → ((m m' : List (Cell T)) (x : List V) → Grows m m' → Q m x → Q m' x)
        → Grows b m
        → Elements b read s vs
        → ((m1 : List (Cell T))
            → Grows b m1
            → Copied m1 (into vs) (λ m' vs'. (length vs' ≡ length vs) × Q m' vs'))
        → Copied m (copy_slice read write into (some s)) (λ m' q.
          (s' : Slice) × (vs' : List V) × (q ≡ some s')
          × Elements m' read s' vs'
          × Q m' vs'
          × Fresh b (some s'.array))
    copy_slice-Copied m into Q s vs stable g (spare, h, e) run =
        let taken : take s.length (vs ++ spare) ≡ vs = rw e (take-append vs spare) in
        Copied-bind m (load read s.array) _ (λ m' x. x ≡ vs ++ spare) _
          (load-Copied read m s.array (vs ++ spare) (At-Grows read b m s.array (vs ++ spare) g h))
          (λ x m1 g1 same.
            Copied-bind m1 (into (take s.length x)) _
              (λ m' vs'. (length vs' ≡ length vs) × Q m' vs') _
              (rw (same, taken) (run m1 (Grows-trans b m m1 g g1)))
              (λ vs' m2 g2 q.
                Copied-bind m2 (alloc (write vs'))
                  (λ a. pure (some (record { array = a; length = s.length }))) _ _
                  (alloc-Copied read write inverse m2 vs')
                  (λ a m3 g3 made. Copied-pure m3 _ _ (
                    record { array = a; length = s.length },
                    vs',
                    refl,
                    ([], rw append-nil made.0, e ∙ sym q.0),
                    stable m2 m3 vs' g3 q.1,
                    Fresh-Grows b m2 (some a) (Grows-trans b m1 m2 (Grows-trans b m m1 g g1) g2)
                        made.1,
                  ))))

    copied-Elements :
        (m : List (Cell T)) (s : Slice) (vs : List V)
        → Grows b m
        → Elements b read s vs
        → Copied m (copy_slice read write pure (some s)) (λ m' q.
          (s' : Slice) × (q ≡ some s') × Elements m' read s' vs × Fresh b (some s'.array))
    copied-Elements m s vs g h =
        Copied-weaken m (copy_slice read write pure (some s)) _ _
          (copy_slice-Copied m pure (λ m' x. x ≡ vs) s vs (λ m m' x g e. e) g h
            (λ m1 g1. Copied-pure m1 vs _ (refl, refl)))
          (λ m' q g' (s', vs', e, elems, same, fresh).
            (s', e, subst (Elements m' read s') same elems, fresh))

    pub copy_slice-Slices :
        (m : List (Cell T)) (p : Option Slice) (vs : Option (List V))
        → Grows b m
        → Slices b read p vs
        → Copied m
            (copy_slice read write pure p)
            (λ m' q. Slices m' read q vs × Fresh b (array_of q))
    copy_slice-Slices m none vs g h = Copied-pure m none _ (h, tt)
    copy_slice-Slices m (some s) none g h = absurd h
    copy_slice-Slices m (some s) (some vs) g h =
        Copied-weaken m (copy_slice read write pure (some s)) _ _ (copied-Elements m s vs g h)
          (λ m' q g' (s', e, elems, fresh).
            subst (λ z. Slices m' read z (some vs) × Fresh b (array_of z)) (sym e) (elems, fresh))

    pub copy_slice-Lists :
        (m : List (Cell T)) (p : Option Slice) (vs : List V)
        → Grows b m
        → Lists b read p vs
        → Copied m
            (copy_slice read write pure p)
            (λ m' q. Lists m' read q vs × Fresh b (array_of q))
    copy_slice-Lists m none vs g h = Copied-pure m none _ (h, tt)
    copy_slice-Lists m (some s) vs g h =
        Copied-weaken m (copy_slice read write pure (some s)) _ _ (copied-Elements m s vs g h)
          (λ m' q g' (s', e, elems, fresh).
            subst (λ z. Lists m' read z vs × Fresh b (array_of z)) (sym e) (elems, fresh))
