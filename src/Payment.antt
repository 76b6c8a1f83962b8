-- ===== src/Payment.antt =====
-- internal/modules/payment: bank-transfer webhooks against pending payments.
pub mod Sepay
pub mod Receive
