-- ===== src/Strategy.antt =====
-- Pseudonymisation strategies (internal/runner/strategy).
pub mod Params
pub mod Compile
pub mod Ready
pub mod Unicode
pub mod Texts
pub mod Network
pub mod Generate
pub mod Laws
pub mod Slices
pub mod Masks
pub mod Total
pub mod Complete
pub mod Consistency
pub mod Legacy
