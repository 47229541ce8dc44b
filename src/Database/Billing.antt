-- ===== src/Database/Billing.antt =====
-- database/billing.go: what a request costs. A price counts thousandths of a dollar per million
-- tokens. The multiplier counts halves, so a cost counts 1/2000 of a dollar per million tokens; it is
-- the exact product, where the code rounds floating-point numbers. Token counts of the input and the
-- output are not negative. A nil pricing is `none`.
pub mod Names
pub mod Pricing
pub mod Costs
pub mod Choice
pub mod Totals
pub mod Positive
