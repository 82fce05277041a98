-- ===== src/SimpleAudio/RawCache.antt =====
-- internal/ffmpeg/raw_cache.c: the cache of the decoded frames of a file. What FFmpeg gives is an
-- argument: the frames of the stream with their sizes, and whether an allocation succeeds.
pub mod Cached
pub mod Decode
use darktide_mods.Base.{
  ℕ, zero, suc, ◌+◌, ◌-◌, ◌*◌, ◌/◌, ◌^◌, Bool, true, false, not, ◌||◌, Option, none, some, List, [],
  ◌++◌, if◌then◌else◌, ltb, leb, ◌==◌, length, set, replicate, Run, ok, fault, out_of_bounds,
  out_of_fuel, overflow, ◌>>=◌,
}

abbrev pub raw_frame_overhead : ℕ
raw_frame_overhead = 512

-- `INT_MAX + 1`
abbrev pub int_bound : ℕ
int_bound = 2 ^ 31

-- A decoded frame: its name, the result of av_samples_get_buffer_size (`none` where it is negative),
-- and whether `realloc` and `av_frame_clone` succeed when it is appended.
pub record AudioFrame : Type 0 where
  pub frame : ℕ
  pub buffer_size : Option ℕ
  pub grows : Bool
  pub clones : Bool

-- SA_RawAudio. `frames` is the array, whose length is what was allocated.
pub record RawAudio : Type 0 where
  pub frames : List ℕ
  pub frame_count : ℕ
  pub frame_capacity : ℕ
  pub byte_count : ℕ

pub data Appended : Type 0 where
  appended : RawAudio → Appended
  over_limit : Appended
  not_appended : Appended

-- A frame accounts for 512 bytes, so there are fewer than 2 ^ 22 frames and the capacity stays an `int`.
abbrev pub grown_capacity : ℕ → ℕ
grown_capacity capacity = if capacity == 0 then 16 else capacity * 2

unfoldable pub grow_frames : Bool → RawAudio → Option RawAudio
grow_frames grows audio =
    let capacity = grown_capacity audio.frame_capacity in
    if not (audio.frame_count == audio.frame_capacity)
    then some audio
    else if not grows
    then none
    else some (record audio {
      frames = audio.frames ++ replicate (capacity - length audio.frames) 0;
      frame_capacity = capacity;
    })

-- `frames[frame_count++] = clone`, and the bytes that are accounted. The sum is an `int`.
unfoldable pub store_frame : ℕ → ℕ → RawAudio → Run Appended
store_frame frame accounted audio =
    if not (ltb audio.frame_count (length audio.frames))
    then fault out_of_bounds
    else if leb int_bound (audio.byte_count + accounted)
    then fault overflow
    else ok (
        appended (record audio {
          frames = set audio.frames audio.frame_count frame;
          frame_count = audio.frame_count + 1;
          byte_count = audio.byte_count + accounted;
        }))

-- `byte_count > max_bytes - accounted_bytes`: the difference of two numbers from 0 to 2 ^ 31 - 1 is
-- an `int`, and their sum before it is checked.
unfoldable pub append_frame : ℕ → AudioFrame → RawAudio → Run Appended
unfolding grow_frames store_frame
append_frame max_bytes frame audio = elim frame.buffer_size [
  | none ↦ ok not_appended
  | some size ↦
      let accounted = size + raw_frame_overhead in
      if leb int_bound accounted
      then fault overflow
      else if ltb max_bytes (audio.byte_count + accounted)
      then ok over_limit
      else elim (grow_frames frame.grows audio) [
        | none ↦ ok not_appended
        | some grown ↦
            if not frame.clones then ok not_appended else store_frame frame.frame accounted grown
      ]
]

-- A call of sa_decoder_next_frame.
pub data DecoderStep : Type 0 where
  next_frame : AudioFrame → DecoderStep
  stream_end : DecoderStep
  decoder_failed : DecoderStep

pub data CacheResult : Type 0 where
  cached : RawAudio → CacheResult
  too_large : CacheResult
  no_frames : CacheResult
  cache_failed : CacheResult
  cancelled : CacheResult
  bad_arguments : CacheResult

unfoldable pub finish_audio : RawAudio → CacheResult
finish_audio audio = if audio.frame_count == 0 then no_frames else cached audio

-- `while (!finished)`, with the step of each round.
unfoldable pub decode_frames : ℕ → (ℕ → DecoderStep) → ℕ → ℕ → RawAudio → Run CacheResult
unfolding append_frame finish_audio
decode_frames max_bytes steps zero round audio = fault out_of_fuel
decode_frames max_bytes steps (suc fuel) round audio = elim (steps round) [
  | decoder_failed ↦ ok cache_failed
  | stream_end ↦ ok (finish_audio audio)
  | next_frame frame ↦ append_frame max_bytes frame audio >>= λ r. elim r [
    | over_limit ↦ ok too_large
    | not_appended ↦ ok cache_failed
    | appended more ↦ decode_frames max_bytes steps fuel (round + 1) more
  ]
]

abbrev pub empty_audio : RawAudio
empty_audio = record { frames = []; frame_count = 0; frame_capacity = 0; byte_count = 0 }

-- `opened` says whether the decoder and the cache could be made. A frame accounts for 512 bytes at
-- least, so the limit bounds the rounds.
unfoldable pub raw_audio_decode : Bool → ℕ → Bool → Bool → (ℕ → DecoderStep) → Run CacheResult
unfolding decode_frames
raw_audio_decode arguments max_bytes is_cancelled opened steps =
    if not arguments || max_bytes == 0
    then ok bad_arguments
    else if is_cancelled
    then ok cancelled
    else if not opened
    then ok cache_failed
    else decode_frames max_bytes steps (max_bytes / raw_frame_overhead + 1) 0 empty_audio
