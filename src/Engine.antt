-- ===== src/Engine.antt =====
-- backend/app/workers/engine.py
pub mod Config
pub mod Transitions
pub mod Worker
pub mod Resume
pub mod Reaper
pub mod Ended
pub mod Processed
pub mod Consistent
