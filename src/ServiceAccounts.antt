-- ===== src/ServiceAccounts.antt =====
-- The registry of machine credentials, space/src/service-accounts.ts.
pub mod Registry
pub mod Token
pub mod Store
mod Examples
