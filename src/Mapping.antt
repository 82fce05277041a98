-- ===== src/Mapping.antt =====
-- The external resource mappings of the asset runtime
-- (native/darktide-simple-assets-runtime/internal/resource/native/mapping).
pub mod Types
pub mod Probe
pub mod Capacity
pub mod Index
pub mod Stream
pub mod Registry
pub mod State
mod RegistryTests
mod TableTests
mod StateTests
