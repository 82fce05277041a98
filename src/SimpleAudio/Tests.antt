-- ===== src/SimpleAudio/Tests.antt =====
-- A stream of one frame.
use darktide_mods.Base.{ℕ, zero, suc, true, some}
use darktide_mods.SimpleAudio.RawCache.{DecoderStep, next_frame, stream_end}

abbrev one_frame : ℕ → DecoderStep
one_frame zero =
    next_frame record { frame = 5; buffer_size = some 4096; grows = true; clones = true }
one_frame (suc i) = stream_end
