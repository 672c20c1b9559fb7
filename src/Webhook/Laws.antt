-- ===== src/Webhook/Laws.antt =====
-- Which jobs the webhook admits.
use fms_lm_eval_service.Prelude.{
  String, ◌==◌, eq_iff, true, str_ne, false≢true, ◌≡◌, refl, ◌↔◌, ◌⊎◌, inl, inr, Option, none, some,
  Bool-cases, sym, ◌∙◌, arith,
}
use fms_lm_eval_service.Api.Core.{Result, ok, err}
use fms_lm_eval_service.Api.Job.{LmEvalJob}
use fms_lm_eval_service.Text.ParseInt.{parse_int, Parsed-cases}
use fms_lm_eval_service.Text.IntLiteral.{IsInt64, parse_int_iff}
use fms_lm_eval_service.Webhook.Validate.{
  Numbers, FieldError, refusal, errors_of, is_fraction, validate_limit, validate_job,
  validate_create, validate_update, validate_delete,
}

module _ (N : Numbers) where
  -- What was read is a number in the half-open interval (0, 1].
  abbrev pub IsFraction : Result N.Float → Type 0
  IsFraction (ok x) = (N.at_most x N.one_float ≡ true) × (N.less N.zero_float x ≡ true)
  IsFraction (err _) = ⊥

  is_fraction_iff : (r : Result N.Float) → (is_fraction N r ≡ true) ↔ IsFraction r
  is_fraction_iff (ok x) = ground arith
  is_fraction_iff (err e) = ground arith

  validate_limit_iff :
      (limit : String)
      → (validate_limit N limit ≡ none)
        ↔ ((limit ≡ "") ⊎ IsInt64 limit ⊎ IsFraction (N.parse_float limit))
  validate_limit_iff limit =
      unfold validate_limit in
      elim (Bool-cases (limit == "")) [
        | inl e ↦ rw (validate_limit, e) (λ v. inl ((eq_iff limit "").0 e), λ x. refl)
        | inr e ↦ elim (Parsed-cases (parse_int limit)) [
          | inl (z, h) ↦
              rw (validate_limit, e, h) (λ v. inr (inl ((parse_int_iff limit).0 (z, h))), λ x. refl)
          | inr (failure, h) ↦ elim (Bool-cases (is_fraction N (N.parse_float limit))) [
            | inl f ↦
                rw (validate_limit, e, h, f)
                  (λ v. inr (inr ((is_fraction_iff (N.parse_float limit)).0 f)), λ x. refl)
            | inr f ↦
                rw (validate_limit, e, h, f)
                  (
                    λ v. absurd cc,
                    λ x. absurd (elim x [
                      | inl empty ↦ str_ne limit "" e empty
                      | inr (inl int) ↦
                          let (z, p) = (parse_int_iff limit).1 int in absurd (cc (h, p))
                      | inr (inr frac) ↦
                          false≢true (sym f ∙ (is_fraction_iff (N.parse_float limit)).1 frac)
                    ]),
                  )
          ]
        ]
      ]

  refusal_iff :
      (job : LmEvalJob) (e : Option FieldError)
      → (refusal N job (errors_of N e) ≡ none) ↔ (e ≡ none)
  refusal_iff job none = ground arith
  refusal_iff job (some e) = ground arith

  -- The webhook admits a new job, and an update to a job, exactly when its limit is empty, a decimal
  -- numeral in the range of an int64 with a sign or without, or read as a floating-point number in
  -- (0, 1]; it admits every deletion.
  pub validate_iff :
      (old job : LmEvalJob)
      → ((validate_create N job).1 ≡ none ↔ (
          (job.spec.limit ≡ "")
          ⊎ IsInt64 job.spec.limit
          ⊎ IsFraction (N.parse_float job.spec.limit)))
        × ((validate_update N old job).1 ≡ (validate_create N job).1)
        × ((validate_delete N job).1 ≡ none)
  unfolding validate_create validate_update validate_delete validate_job
  validate_iff old job =
      let (out, back) = refusal_iff job (validate_limit N job.spec.limit) in
      let (there, here) = validate_limit_iff job.spec.limit in
      ((λ e. there (out e), λ x. back (here x)), refl, refl)
