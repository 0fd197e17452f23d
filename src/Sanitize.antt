-- ===== src/Sanitize.antt =====
-- `sanitize/`
pub mod Patterns
pub mod Metadata
pub mod Engine
pub mod Directory
