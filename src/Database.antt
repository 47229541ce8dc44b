-- ===== src/Database.antt =====
-- database/: what the requests cost.
pub mod Billing
