-- ===== src/SimpleAudio/RawCache/Decode.antt =====
-- The decoding of a file ends, and gives the frames of the stream up to its end.
use darktide_mods.Base.{ℕ, ◌+◌, ◌≤◌, ◌<◌, ◌≡◌, ◌⊎◌, Bool, true, false, ok}
use darktide_mods.SimpleAudio.RawCache.{
  int_bound, RawAudio, DecoderStep, stream_end, CacheResult, cached, too_large, no_frames,
  cache_failed, cancelled, bad_arguments, decode_frames,
}
use darktide_mods.SimpleAudio.RawCache.Cached.{IsAudio, Fails, HasSizes, bytes_of}

-- What the loop gives: the frames up to the end of the stream, or the reason why there is no cache. It
-- is too large only if the first frames account for more than the limit.
abbrev pub IsRead : ℕ → (ℕ → DecoderStep) → CacheResult → Type 0
IsRead max_bytes steps (cached audio) =
    (0 < audio.frame_count) × IsAudio max_bytes steps audio × (steps audio.frame_count ≡ stream_end)
IsRead max_bytes steps too_large =
    (n : ℕ) × (bytes_of steps n ≤ max_bytes) × (max_bytes < bytes_of steps (n + 1))
IsRead max_bytes steps no_frames = steps 0 ≡ stream_end
IsRead max_bytes steps cache_failed = (n : ℕ) × Fails (steps n)
IsRead max_bytes steps cancelled = ⊥
IsRead max_bytes steps bad_arguments = ⊥

-- The same for the whole call, which can end before the loop.
abbrev pub IsResult : Bool → Bool → Bool → ℕ → (ℕ → DecoderStep) → CacheResult → Type 0
IsResult arguments is_cancelled opened max_bytes steps r =
    IsRead max_bytes steps r
    ⊎ (((r ≡ bad_arguments) × ((arguments ≡ false) ⊎ (max_bytes ≡ 0)))
        ⊎ (((r ≡ cancelled) × (is_cancelled ≡ true)) ⊎ ((r ≡ cache_failed) × (opened ≡ false))))

module _ (max_bytes : ℕ) (steps : ℕ → DecoderStep) (small : max_bytes < int_bound)
    (sizes : HasSizes steps) where
  -- One round of the loop.
  abbrev Reads : ℕ → RawAudio → Type 0
  Reads fuel audio =
      (r : CacheResult) × (decode_frames max_bytes steps fuel audio.frame_count audio ≡ ok r)
      × IsRead max_bytes steps r
