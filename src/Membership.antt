-- ===== src/Membership.antt =====
-- Who belongs to the pool: space/src/membership.ts.
pub mod Normal
pub mod Pool
pub mod World
mod Examples
