-- ===== src/Tests.antt =====
-- Concrete runs of the models.
pub mod Numbers
pub mod Money
pub mod Payouts
pub mod Pool
pub mod Services
pub mod Accounts
pub mod Server
pub mod Web
