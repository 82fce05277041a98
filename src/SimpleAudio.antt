-- ===== src/SimpleAudio.antt =====
-- native/darktide-simple-audio-runtime: audio that is decoded for the game.
pub mod RawCache
mod Tests
