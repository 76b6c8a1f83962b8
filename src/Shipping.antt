-- ===== src/Shipping.antt =====
-- internal/modules/shipping: the drivers, and the deliveries by the platform's own carrier.
pub mod State
pub mod Drivers
pub mod Rows
pub mod Locked
pub mod Create
pub mod View
pub mod Progress
