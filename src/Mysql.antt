-- ===== src/Mysql.antt =====
-- The MySQL layer: internal/infra/mysql.
pub mod Rows
pub mod Tx
pub mod MileageRepository
pub mod UserRepository
pub mod AchievementRepository
pub mod Contract
pub mod Effects
pub mod Commit
pub mod Calm
pub mod Listing
