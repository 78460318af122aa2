-- ===== src/Config.antt =====
-- server/internal/config: the configuration, and its durations and lists.
pub mod Duration
pub mod Items
pub mod Load
