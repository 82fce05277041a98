-- ===== src/SimpleAssets.antt =====
-- native/darktide-simple-assets-runtime, beside the mapping: the data that the script hands over.
pub mod Validation
mod Tests
