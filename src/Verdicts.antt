-- ===== src/Verdicts.antt =====
-- What src/weeder.cc decides, by descriptions without loops and early returns.
pub mod Allow
pub mod Deny
pub mod Points
pub mod Table
pub mod Seen
pub mod Guards
