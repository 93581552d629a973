-- ===== src/Permission.antt =====
-- The permission system of src/permission.rs: `Text` byte strings, `Path` and `Host` the two matching
-- rules, `Grants` the capabilities and the grant store, `PathRules`, `HostPorts`, `HostRules` and `Rules`
-- what is proved of them.
pub mod Text
pub mod Path
pub mod Host
pub mod Grants
pub mod HostPorts
pub mod HostRules
pub mod PathRules
pub mod Rules
