-- ===== src/Tests.antt =====
-- Examples: the theorems at concrete inputs.
pub mod Samples
mod Weeding
mod Reading
mod Sessions
mod Network
mod Program
mod Strings
mod Headers
mod Settings
