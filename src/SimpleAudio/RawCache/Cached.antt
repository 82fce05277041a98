-- ===== src/SimpleAudio/RawCache/Cached.antt =====
-- The cache holds the frames of the stream in order, inside its array and the limit.
use darktide_mods.Base.{
  ℕ, zero, suc, ◌+◌, ◌-◌, ◌*◌, ◌≤◌, ◌<◌, ◌≡◌, refl, sym, ap, subst, ◌∙◌, arith, Bool, true, false,
  Bool-cases, Option-cases, none, some, ◌⊎◌, ◌++◌, ltb, leb, ◌==◌, length, length-set,
  length-append, length-replicate, get_or, set, replicate, ok, inl, inr, ℕ_discrete,
}
use darktide_mods.Base.Arrays.{get_or-append, get_or-set_self, get_or-set_other}
use darktide_mods.SimpleAudio.RawCache.{
  raw_frame_overhead, int_bound, AudioFrame, RawAudio, Appended, appended, over_limit, not_appended,
  grown_capacity, grow_frames, store_frame, append_frame, DecoderStep, next_frame, stream_end,
  decoder_failed,
}

-- The frame that a step gives is the one that is named.
abbrev pub Gives : DecoderStep → ℕ → Type 0
Gives (next_frame f) name = f.frame ≡ name
Gives stream_end name = ⊥
Gives decoder_failed name = ⊥

-- What a step adds to the bytes that are accounted.
abbrev pub frame_bytes : DecoderStep → ℕ
frame_bytes (next_frame f) = elim f.buffer_size [ none ↦ 0 | some size ↦ size + raw_frame_overhead ]
frame_bytes stream_end = 0
frame_bytes decoder_failed = 0

-- What the first steps account for.
abbrev pub bytes_of : (ℕ → DecoderStep) → ℕ → ℕ
bytes_of steps zero = 0
bytes_of steps (suc n) = bytes_of steps n + frame_bytes (steps n)

-- The step fails, or its frame cannot be appended.
abbrev pub Fails : DecoderStep → Type 0
Fails (next_frame f) = (f.buffer_size ≡ none) ⊎ ((f.grows ≡ false) ⊎ (f.clones ≡ false))
Fails stream_end = ⊥
Fails decoder_failed = Unit {0}

-- The size of every frame leaves room for the overhead in an `int`.
abbrev pub HasSizes : (ℕ → DecoderStep) → Type 0
HasSizes steps =
    (n : ℕ) (f : AudioFrame) (size : ℕ)
    → steps n ≡ next_frame f
    → f.buffer_size ≡ some size
    → size + raw_frame_overhead < int_bound

pub record IsAudio (max_bytes : ℕ) (steps : ℕ → DecoderStep) (audio : RawAudio) : Type 0 where
  pub allocated : length audio.frames ≡ audio.frame_capacity
  pub within : audio.frame_count ≤ audio.frame_capacity
  pub accounted : audio.frame_count * raw_frame_overhead ≤ audio.byte_count
  pub booked : audio.byte_count ≡ bytes_of steps audio.frame_count
  pub limited : audio.byte_count ≤ max_bytes
  pub in_order : (i : ℕ) → i < audio.frame_count → Gives (steps i) (get_or audio.frames i 0)

fails : (f : AudioFrame) (s : DecoderStep) → s ≡ next_frame f → Fails (next_frame f) → Fails s
fails f s e h = subst Fails (sym e) h

bytes_of-next :
    (steps : ℕ → DecoderStep) (n : ℕ) (f : AudioFrame) (size : ℕ)
    → steps n ≡ next_frame f
    → f.buffer_size ≡ some size
    → bytes_of steps (n + 1) ≡ bytes_of steps n + (size + raw_frame_overhead)
bytes_of-next steps n f size e h =
    let one : n + 1 ≡ suc n = omega arith in
    let bytes : frame_bytes (steps n) ≡ size + raw_frame_overhead = rw e (rw h refl) in
    ap (bytes_of steps) one ∙ ap (λ b. bytes_of steps n + b) bytes

gives : (f : AudioFrame) (s : DecoderStep) (n : ℕ) → s ≡ next_frame f → n ≡ f.frame → Gives s n
gives f s n e h = subst (λ t. Gives t n) (sym e) (sym h)

module _ (max_bytes : ℕ) (steps : ℕ → DecoderStep) where
  -- An array with room, and the same frames and bytes.
  abbrev IsGrown : RawAudio → RawAudio → Type 0
  IsGrown audio more =
      IsAudio max_bytes steps more
      × (more.frame_count < more.frame_capacity)
      × (more.frame_count ≡ audio.frame_count)
      × (more.byte_count ≡ audio.byte_count)

  larger :
      (audio : RawAudio) (capacity : ℕ)
      → IsAudio max_bytes steps audio
      → audio.frame_capacity < capacity
      → IsGrown audio (record audio {
        frames = audio.frames ++ replicate (capacity - length audio.frames) 0;
        frame_capacity = capacity;
      })
  larger audio capacity v more_room = (
    record {
      allocated = omega (
        arith,
        v.allocated,
        more_room,
        length-append audio.frames (replicate (capacity - length audio.frames) 0),
        length-replicate {A = ℕ} (capacity - length audio.frames) 0,
      );
      within = omega (arith, v.within, more_room);
      accounted = v.accounted;
      booked = v.booked;
      limited = v.limited;
      in_order = λ i h.
          let kept : get_or (audio.frames ++ replicate (capacity - length audio.frames) 0) i 0
              ≡ get_or audio.frames i 0 =
            ground (
              arith,
              get_or-append audio.frames (replicate (capacity - length audio.frames) 0) i,
              h,
              v.within,
              v.allocated,
            ) in
          subst (λ n. Gives (steps i) n) (sym kept) (v.in_order i h);
    },
    omega (arith, v.within, more_room),
    refl,
    refl,
  )

  grow_frames-Audio :
      (grows : Bool) (audio more : RawAudio)
      → IsAudio max_bytes steps audio
      → grow_frames grows audio ≡ some more
      → IsGrown audio more
  unfolding grow_frames
  grow_frames-Audio false audio more v e =
      elim (Bool-cases (audio.frame_count == audio.frame_capacity)) [
        | inl full ↦ let f = (rw full at e) in absurd cc
        | inr room ↦
            let f = (rw room at e) in
            let same : audio ≡ more = cc in
            subst (λ m. IsGrown audio m) same (v, ground (arith, room, v.within), refl, refl)
      ]
  grow_frames-Audio true audio more v e =
      elim (Bool-cases (audio.frame_count == audio.frame_capacity)) [
        | inl full ↦
            let f = (rw full at e) in
            let same : record audio {
              frames =
                  audio.frames
                  ++ replicate (grown_capacity audio.frame_capacity - length audio.frames) 0;
              frame_capacity = grown_capacity audio.frame_capacity;
            }
                ≡ more =
              cc in
            subst (λ m. IsGrown audio m) same
              (larger audio (grown_capacity audio.frame_capacity) v (ground arith))
        | inr room ↦
            let f = (rw room at e) in
            let same : audio ≡ more = cc in
            subst (λ m. IsGrown audio m) same (v, ground (arith, room, v.within), refl, refl)
      ]

  -- What an attempt to append a frame says: the audio has one frame more, the frame would exceed
  -- the limit, or it cannot be appended.
  abbrev pub IsAppended : RawAudio → Appended → Type 0
  IsAppended audio (appended more) =
      IsAudio max_bytes steps more × (more.frame_count ≡ audio.frame_count + 1)
  IsAppended audio over_limit = max_bytes < bytes_of steps (audio.frame_count + 1)
  IsAppended audio not_appended = Fails (steps audio.frame_count)

  store_frame-Audio :
      (f : AudioFrame) (size : ℕ) (audio : RawAudio)
      → IsAudio max_bytes steps audio
      → max_bytes < int_bound
      → audio.frame_count < audio.frame_capacity
      → audio.byte_count + (size + 512) ≤ max_bytes
      → steps audio.frame_count ≡ next_frame f
      → f.buffer_size ≡ some size
      → (more : RawAudio) × (store_frame f.frame (size + raw_frame_overhead) audio
          ≡ ok (appended more))
        × IsAudio max_bytes steps more
        × (more.frame_count ≡ audio.frame_count + 1)
  unfolding store_frame
  store_frame-Audio f size audio v small room limit step sized = (
    record audio {
      frames = set audio.frames audio.frame_count f.frame;
      frame_count = audio.frame_count + 1;
      byte_count = audio.byte_count + (size + raw_frame_overhead);
    },
    ground (arith, room, v.allocated, limit, small),
    record {
      allocated = length-set audio.frames audio.frame_count f.frame ∙ v.allocated;
      within = omega (arith, room);
      accounted = omega (arith, v.accounted);
      booked =
          ap (λ b. b + (size + raw_frame_overhead)) v.booked
          ∙ sym (bytes_of-next steps audio.frame_count f size step sized);
      limited = omega (arith, limit);
      in_order = λ i h. elim (ℕ_discrete i audio.frame_count) [
        | yes last ↦
            gives f (steps i) (get_or (set audio.frames audio.frame_count f.frame) i 0)
              (ap steps last ∙ step)
              (ap (λ n. get_or (set audio.frames audio.frame_count f.frame) n 0) last
                ∙ get_or-set_self audio.frames audio.frame_count f.frame
                    (omega (arith, room, v.allocated)))
        | no before ↦
            subst (λ n. Gives (steps i) n)
              (sym
                (get_or-set_other audio.frames audio.frame_count i f.frame (λ e. before (sym e))))
              (v.in_order i (omega (arith, h, before)))
      ];
    },
    refl,
  )

  growth_fails : (grows : Bool) (audio : RawAudio) → grow_frames grows audio ≡ none → grows ≡ false
  unfolding grow_frames
  growth_fails false audio e = refl
  growth_fails true audio e = elim (Bool-cases (audio.frame_count == audio.frame_capacity)) [
    | inl full ↦ let f = (rw full at e) in absurd cc
    | inr room ↦ let f = (rw room at e) in absurd cc
  ]

  pub append_frame-Audio :
      (f : AudioFrame) (audio : RawAudio)
      → IsAudio max_bytes steps audio
      → max_bytes < int_bound
      → HasSizes steps
      → steps audio.frame_count ≡ next_frame f
      → (r : Appended) × (append_frame max_bytes f audio ≡ ok r) × IsAppended audio r
  unfolding append_frame
  append_frame-Audio f audio v small sizes step = elim (Option-cases f.buffer_size) [
    | inl e ↦ (not_appended, rw e refl, fails f (steps audio.frame_count) step (inl e))
    | inr (size, e) ↦
        let fits : leb int_bound (size + raw_frame_overhead) ≡ false =
          ground (arith, sizes audio.frame_count f size step e) in
        elim (Bool-cases (ltb max_bytes (audio.byte_count + (size + raw_frame_overhead)))) [
          | inl full ↦ (
            over_limit,
            rw (e, fits, full) refl,
            ground (arith, full, v.booked, bytes_of-next steps audio.frame_count f size step e),
          )
          | inr room ↦ elim (Option-cases (grow_frames f.grows audio)) [
            | inl g ↦ (
              not_appended,
              rw (e, fits, room, g) refl,
              fails f (steps audio.frame_count) step (inr (inl (growth_fails f.grows audio g))),
            )
            | inr (grown, g) ↦ elim (Bool-cases f.clones) [
              | inr c ↦ (
                not_appended,
                rw (e, fits, room, g, c) refl,
                fails f (steps audio.frame_count) step (inr (inr c)),
              )
              | inl c ↦
                  let (w, space, count, bytes) = grow_frames-Audio f.grows audio grown v g in
                  let (more, run, h, next) =
                    store_frame-Audio f size grown w small space (ground (arith, room, bytes))
                      (ap steps count ∙ step) e in
                  (appended more, rw (e, fits, room, g, c) run, (h, omega (arith, next, count)))
            ]
          ]
        ]
  ]
