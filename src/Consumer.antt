-- ===== src/Consumer.antt =====
-- The consumer interface: reads of the pool by other programs.
pub mod Errors
pub mod Workers
pub mod Page
pub mod Cursor
mod Examples
