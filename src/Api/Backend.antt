-- ===== src/Api/Backend.antt =====
-- backend/api/v1beta1/update_status.proto: the messages between the driver and the controller.
use fms_lm_eval_service.Prelude.{String, Option}

pub record JobStatus : Type 0 where
  pub job_name : String
  pub job_namespace : String
  pub state : String
  pub reason : String
  pub status_message : String
  pub results : Option String

pub data ResponseCode : Type 0 where
  response_ok response_error : ResponseCode

pub record Response : Type 0 where
  pub code : ResponseCode
  pub message : String
