-- ===== src/Enrichment.antt =====
-- The durable state of an enrichment run.
pub mod Bitmap
pub mod Manifest
pub mod State
pub mod Checkpoint
pub mod RunPlan
pub mod ActiveRun
