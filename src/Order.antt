-- ===== src/Order.antt =====
-- internal/modules/order: the states of a seller order, checkout, fulfilment and cancellation.
pub mod Fulfill
pub mod Cancel
pub mod Lifecycle
pub mod Checkout
pub mod Detail
