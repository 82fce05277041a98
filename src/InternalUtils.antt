-- ===== src/InternalUtils.antt =====
-- native/darktide-internal-utils: searches in the image of the game, which the other native
-- runtimes use to find its functions.
pub mod Memory
pub mod Scan
pub mod Pattern
pub mod Ranges
pub mod Image
mod ScanTests
mod ImageTests
