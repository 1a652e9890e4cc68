-- ===== src/Policy.antt =====
-- ui/src/policy-management.js: the managed policies that the console derives from the stored
-- versions and the deployment records.
pub mod Record
pub mod Summary
pub mod Managed
