-- ===== src/Usecase.antt =====
-- The usecase layer: internal/usecase.
pub mod Posting
pub mod Auth
pub mod Achievement
pub mod Balance
pub mod Transactions
