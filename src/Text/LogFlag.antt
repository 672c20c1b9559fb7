-- ===== src/Text/LogFlag.antt =====
-- The flags that zap's `BindFlags` defines. The variables are zap's own, not the program's.
use fms_lm_eval_service.Prelude.{String, Bool, Option, none, some}
use fms_lm_eval_service.Api.Core.{Error, ok, err}
use fms_lm_eval_service.Text.Flag.{Formal}

-- Whether the flag may stand without a value, and the error of its `Set`.
pub record LogFlag : Type 0 where
  pub is_bool_flag : Bool
  pub check : String → Option Error

abbrev pub log_formal {ℓ} : {S : Type ℓ} → Option LogFlag → Option (Formal S)
log_formal none = none
log_formal (some f) = some (record {
  is_bool_flag = f.is_bool_flag;
  set = λ v s. elim (f.check v) [ none ↦ ok s | some e ↦ err e ];
})
