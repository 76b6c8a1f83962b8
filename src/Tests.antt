-- ===== src/Tests.antt =====
-- Concrete runs of the operations, and the theorems applied to them.
pub mod Rows
pub mod Vouchers
pub mod Chats
pub mod Suggestions
pub mod Notices
pub mod Accounts
pub mod Checkouts
pub mod Orders
pub mod Payments
pub mod Shipments
pub mod Shops
pub mod Reviews
