-- ===== src/Text/FlagFrame.antt =====
-- What the flags of a command line leave alone (Go's package flag).
use fms_lm_eval_service.Prelude.{
  String, ◌==◌, ◌||◌, ◌≡◌, ◌≢◌, ◌⊎◌, refl, sym, ◌∙◌, subst, Bool, true, false, Option, none, some,
  Option-cases, List, [], ◌∷◌, inl, inr, All, if◌then◌else◌,
}
use fms_lm_eval_service.Api.Core.{Error, errorf, Result, ok, err}
use fms_lm_eval_service.Text.LogFlag.{LogFlag, log_formal}
use fms_lm_eval_service.Text.Flag.{
  Formal, Word, not_a_flag, end_mark, bad_syntax, named, word_of, Parse, stopped, helped, failed,
  parse_loop, parse_flags, string_flag, bool_flag, parse_bool,
}

some-inj {ℓ} : {A : Type ℓ} {a b : A} → some a ≡ some b → a ≡ b
some-inj e = cc

ok-inj {ℓ} : {A : Type ℓ} {a b : A} → ok a ≡ ok b → a ≡ b
ok-inj e = cc

-- The argument does not name the flag.
abbrev pub Spares : String → String → Type 0
Spares name arg = (value : Option String) → word_of arg ≢ named name value

abbrev pub Keeps {ℓ κ} : {S : Type ℓ} → (S → Type κ) → Formal S → Type (ℓ ⊔ κ)
Keeps P f = (v : String) → (s s' : _) → f.set v s ≡ ok s' → P s → P s'

-- The flag, if there is one, keeps the predicate.
abbrev pub KeepsSome {ℓ κ} : {S : Type ℓ} → (S → Type κ) → Option (Formal S) → Type (ℓ ⊔ κ)
KeepsSome P o = (f : Formal _) → o ≡ some f → Keeps P f

module _ {ℓ κ} {S : Type ℓ} (P : S → Type κ) where
  pub if-KeepsSome :
      (b : Bool) (x y : Option (Formal S))
      → (b ≡ true → KeepsSome P x)
      → KeepsSome P y
      → KeepsSome P (if b then x else y)
  if-KeepsSome true x y h k = h refl
  if-KeepsSome false x y h k = k

  pub string_flag-KeepsSome :
      (put : String → S → S)
      → ((v : String) (s : S) → P s → P (put v s))
      → KeepsSome P (some (string_flag put))
  string_flag-KeepsSome put h f e =
      subst (Keeps P) (some-inj e) (λ v s s' set p. subst P (ok-inj set) (h v s p))

  set_bool-keeps :
      (put : Bool → S → S)
      → ((b : Bool) (s : S) → P s → P (put b s))
      → (o : Option Bool) (s s' : S)
      → (elim o [ some b ↦ ok (put b s) | none ↦ err (errorf "parse error") ]) ≡ ok s'
      → P s
      → P s'
  set_bool-keeps put h (some b) s s' set p = subst P (ok-inj set) (h b s p)
  set_bool-keeps put h none s s' set p = absurd cc

  set_log-keeps :
      (o : Option Error) (s s' : S) → (elim o [ none ↦ ok s | some e ↦ err e ]) ≡ ok s' → P s → P s'
  set_log-keeps none s s' set p = subst P (ok-inj set) p
  set_log-keeps (some e) s s' set p = absurd cc

  pub bool_flag-KeepsSome :
      (put : Bool → S → S)
      → ((b : Bool) (s : S) → P s → P (put b s))
      → KeepsSome P (some (bool_flag put))
  bool_flag-KeepsSome put h f e =
      subst (Keeps P) (some-inj e) (λ v s s' set p. set_bool-keeps put h (parse_bool v) s s' set p)

  pub log_formal-KeepsSome : (o : Option LogFlag) → KeepsSome P (log_formal o)
  log_formal-KeepsSome none f e = absurd cc
  log_formal-KeepsSome (some l) f e =
      subst (Keeps P) (some-inj e) (λ v s s' set p. set_log-keeps (l.check v) s s' set p)

abbrev Pending {ℓ κ} : {S : Type ℓ} → (S → Type κ) → Option (Formal S) → Type (ℓ ⊔ κ)
Pending P none = Unit
Pending P (some f) = Keeps P f

Word-cases :
    (w : Word)
    → (w ≡ not_a_flag)
      ⊎ ((w ≡ end_mark)
          ⊎ ((w ≡ bad_syntax)
              ⊎ ((name : String) × (value : Option String) × (w ≡ named name value))))
Word-cases not_a_flag = inl refl
Word-cases end_mark = inr (inl refl)
Word-cases bad_syntax = inr (inr (inl refl))
Word-cases (named name value) = inr (inr (inr (name, value, refl)))

stopped-inj {ℓ} :
    {S : Type ℓ} (s s' : S) (xs ys : List String) → stopped s xs ≡ stopped s' ys → s ≡ s'
stopped-inj s s' xs ys e = cc

set_then-stopped {ℓ} :
    {S : Type ℓ} (r : Result S) (next : S → Parse S) (s' : S) (rest : List String)
    → (elim r [ ok s ↦ next s | err e ↦ failed ]) ≡ stopped s' rest
    → (s : S) × (r ≡ ok s) × (next s ≡ stopped s' rest)
set_then-stopped (ok s) next s' rest e = (s, refl, e)
set_then-stopped (err x) next s' rest h = absurd cc

module _ {ℓ} {S : Type ℓ} (formal : String → Option (Formal S)) (arg : String)
    (args : List String) where
  abbrev set_and_go : Formal S → String → S → Parse S
  set_and_go f v s = elim (f.set v s) [ ok s' ↦ parse_loop formal args none s' | err e ↦ failed ]

  abbrev behind_name : Formal S → Option String → Bool → S → Parse S
  behind_name f (some v) is_bool s = set_and_go f v s
  behind_name f none is_bool s = elim is_bool [
    | true ↦ set_and_go f "true" s
    | false ↦ parse_loop formal args (some f) s
  ]

  parse_loop-not_a_flag :
      (s : S)
      → word_of arg ≡ not_a_flag
      → parse_loop formal (arg ∷ args) none s ≡ stopped s (arg ∷ args)
  parse_loop-not_a_flag s w = unfold parse_loop in rw (parse_loop, w) refl

  parse_loop-end_mark :
      (s : S) → word_of arg ≡ end_mark → parse_loop formal (arg ∷ args) none s ≡ stopped s args
  parse_loop-end_mark s w = unfold parse_loop in rw (parse_loop, w) refl

  parse_loop-unknown :
      (s : S) (name : String) (value : Option String)
      → word_of arg ≡ named name value
      → formal name ≡ none
      → parse_loop formal (arg ∷ args) none s
        ≡ (if name == "help" || name == "h" then helped else failed)
  parse_loop-unknown s name value w e = unfold parse_loop in rw (parse_loop, w, e) refl

  parse_loop-bad_syntax :
      (s : S) → word_of arg ≡ bad_syntax → parse_loop formal (arg ∷ args) none s ≡ failed
  parse_loop-bad_syntax s w = unfold parse_loop in rw (parse_loop, w) refl

  parse_loop-named :
      (s : S) (name : String) (value : Option String) (f : Formal S)
      → word_of arg ≡ named name value
      → formal name ≡ some f
      → parse_loop formal (arg ∷ args) none s ≡ behind_name f value f.is_bool_flag s
  parse_loop-named s name (some v) f w e = unfold parse_loop in rw (parse_loop, w, e) refl
  parse_loop-named s name none f w e = unfold parse_loop in rw (parse_loop, w, e) refl

refused-stopped {ℓ} :
    {S : Type ℓ} (b : Bool) (s : S) (rest : List String)
    → (if b then helped else failed) ≢ stopped s rest
refused-stopped true s rest h = cc
refused-stopped false s rest h = cc

-- The next argument is looked at with some variables and a pending flag.
abbrev GoesOn {ℓ κ} :
    {S : Type ℓ}
    → (S → Type κ)
    → (List String → Option (Formal S) → S → Parse S)
    → List String
    → S
    → Parse S
    → Type (ℓ ⊔ κ)
GoesOn P loop args s end =
    (pending : Option _) × (s1 : _) × (loop args pending s1 ≡ end)
    × (P s → P s1)
    × Pending P pending

module _ {ℓ κ} {S : Type ℓ} (formal : String → Option (Formal S)) (P : S → Type κ) (arg : String)
    (args : List String) (f : Formal S) (keeps : Keeps P f) where
  set_and_go-GoesOn :
      (v : String) (s s' : S) (rest : List String)
      → set_and_go formal arg args f v s ≡ stopped s' rest
      → GoesOn P (parse_loop formal) args s (stopped s' rest)
  set_and_go-GoesOn v s s' rest e =
      let (s1, put, e1) = set_then-stopped (f.set v s) (parse_loop formal args none) s' rest e in
      (none, s1, e1, keeps v s s1 put, tt)

  behind_name-GoesOn :
      (value : Option String) (is_bool : Bool) (s s' : S) (rest : List String)
      → behind_name formal arg args f value is_bool s ≡ stopped s' rest
      → GoesOn P (parse_loop formal) args s (stopped s' rest)
  behind_name-GoesOn (some v) is_bool s s' rest e = set_and_go-GoesOn v s s' rest e
  behind_name-GoesOn none true s s' rest e = set_and_go-GoesOn "true" s s' rest e
  behind_name-GoesOn none false s s' rest e = (some f, s, e, (λ h. h), keeps)

module _ {ℓ κ} {S : Type ℓ} (formal : String → Option (Formal S)) (P : S → Type κ) (name : String)
    (kept : (other : String) (f : Formal S)
      → other ≢ name
      → formal other ≡ some f
      → Keeps P f) where
  parse_loop-keeps :
      (args : List String) (pending : Option (Formal S)) (s s' : S) (rest : List String)
      → All (Spares name) args
      → Pending P pending
      → parse_loop formal args pending s ≡ stopped s' rest
      → P s
      → P s'
  unfolding parse_loop
  parse_loop-keeps [] none s s' rest spared p e h = subst P (stopped-inj s s' [] rest e) h
  parse_loop-keeps [] (some f) s s' rest spared p e h = absurd cc
  parse_loop-keeps (arg ∷ args) (some f) s s' rest spared p e h =
      let (pending, s1, e1, on, p1) =
        set_and_go-GoesOn formal P arg args f p arg s s' rest (unfold parse_loop in e) in
      parse_loop-keeps args pending s1 s' rest spared.1 p1 e1 (on h)
  parse_loop-keeps (arg ∷ args) none s s' rest spared p e h = elim (Word-cases (word_of arg)) [
    | inl w ↦
        subst P (stopped-inj s s' _ rest (sym (parse_loop-not_a_flag formal arg args s w) ∙ e)) h
    | inr (inl w) ↦
        subst P (stopped-inj s s' _ rest (sym (parse_loop-end_mark formal arg args s w) ∙ e)) h
    | inr (inr (inl w)) ↦
        let never : failed ≡ stopped s' rest =
          sym (parse_loop-bad_syntax formal arg args s w) ∙ e in
        absurd cc
    | inr (inr (inr (other, value, w))) ↦ elim (Option-cases (formal other)) [
      | inl gone ↦ absurd (
          refused-stopped (other == "help" || other == "h") s' rest
            (sym (parse_loop-unknown formal arg args s other value w gone) ∙ e))
      | inr (f, found) ↦
          let keeps =
            kept other f (λ same. spared.0 value (subst (λ z. word_of arg ≡ named z value) same w))
              found in
          let (pending, s1, e1, on, p1) =
            behind_name-GoesOn formal P arg args f keeps value f.is_bool_flag s s' rest
              (sym (parse_loop-named formal arg args s other value f w found) ∙ e) in
          parse_loop-keeps args pending s1 s' rest spared.1 p1 e1 (on h)
    ]
  ]

  -- What every flag of another name keeps, a command line that does not name this flag keeps.
  pub parse_flags-keeps :
      (args : List String) (s s' : S) (rest : List String)
      → All (Spares name) args
      → parse_flags formal args s ≡ stopped s' rest
      → P s
      → P s'
  unfolding parse_flags
  parse_flags-keeps args s s' rest spared e h = parse_loop-keeps args none s s' rest spared tt e h
