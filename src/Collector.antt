-- ===== src/Collector.antt =====
-- ui/src/collector-management.js: the managed collector configurations.
pub mod Record
pub mod Summary
pub mod Mode
