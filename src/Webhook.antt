-- ===== src/Webhook.antt =====
-- The admission webhook of api/v1beta1/lmevaljob_webhook.go.
pub mod Validate
pub mod Laws
pub mod Limit
