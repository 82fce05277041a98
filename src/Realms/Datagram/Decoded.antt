-- ===== src/Realms/Datagram/Decoded.antt =====
-- No datagram is read past its end, and a route names a connection or a peer.
use darktide_mods.Base.{
  ℕ, zero, suc, ◌+◌, ◌-◌, ◌*◌, ◌%◌, ◌^◌, ◌≤◌, ◌<◌, ◌≡◌, ◌≢◌, ◌⊎◌, refl, inl, inr, arith, not, ◌||◌,
  Option, Bool-cases, none, some, List, if◌then◌else◌, ltb, ◌==◌, bit_or, take, drop, length,
  get_elem?, get_elem?-of_lt, Run, ok, ◌>>=◌, load, load-eq_ok,
}
use darktide_mods.Base.Bits.{bit_or-shift}
use darktide_mods.Realms.Routes.Reads.{Ends, bind-Ends, if-Ends}
use darktide_mods.Realms.Datagram.{
  DatagramRoute, Decoder, read_length, load_number, read_peer, read_decoded, call_decoder,
  decode_packet, read_route, maximum_engine_datagram_size, connection_header_size,
  extended_length_threshold, extended_length_bias,
}

abbrev pub AreBytes : List ℕ → Type 0
AreBytes bytes = (i b : ℕ) → get_elem? bytes i ≡ some b → b < 256

-- Where the decoded size fits, the decoder writes bytes into its array, which keeps its size.
abbrev pub IsDecoder : Decoder → Type 0
IsDecoder decode =
    (encoded : List ℕ) (size : ℕ) (decoded : List ℕ)
    → size ≤ maximum_engine_datagram_size
    → decode encoded size ≡ some decoded
    → (length decoded ≡ maximum_engine_datagram_size) × AreBytes decoded

-- A route has the 24-bit number of a connection, or no number and a peer.
abbrev pub IsDatagramRoute : Option DatagramRoute → Type 0
IsDatagramRoute none = Unit {0}
IsDatagramRoute (some route) =
    (route.connection_id < 2 ^ 24)
    × (((route.connection_id ≢ 0) × (route.peer_id ≡ 0))
        ⊎ ((route.connection_id ≡ 0) × (route.peer_id ≢ 0)))

load-Ends {ℓ} :
    {B : Type ℓ} (P : B → Type 0) (bytes : List ℕ) (i : ℕ) (f : ℕ → Run B)
    → AreBytes bytes
    → i < length bytes
    → ((b : ℕ) → b < 256 → Ends P (f b))
    → Ends P (load bytes i >>= f)
load-Ends P bytes i f small inside next =
    let (b, e) = get_elem?-of_lt bytes i inside in
    bind-Ends P (load bytes i) f b (load-eq_ok bytes i e) (next b (small i b e))

load_number-ok :
    (bytes : List ℕ) (n at : ℕ) → at + n ≤ length bytes → (v : ℕ) × (load_number bytes n at ≡ ok v)
unfolding load_number
load_number-ok bytes zero at inside = (0, refl)
load_number-ok bytes (suc n) at inside =
    let (low, e) = get_elem?-of_lt bytes at (omega (arith, inside)) in
    let (high, run) = load_number-ok bytes n (at + 1) (omega (arith, inside)) in
    (low + 256 * high, rw (load-eq_ok bytes at e, run) refl)

nothing : Ends IsDatagramRoute (ok none)
nothing = (none, refl, tt)

found_peer :
    (peer : ℕ)
    → Ends IsDatagramRoute
        (if peer == 0 then ok none else ok (some record { connection_id = 0; peer_id = peer }))
found_peer peer =
    if-Ends IsDatagramRoute (peer == 0) (ok none)
      (ok (some record { connection_id = 0; peer_id = peer })) (λ _. nothing)
      (λ e. (
        some record { connection_id = 0; peer_id = peer },
        refl,
        (omega arith, inr (refl, ground (arith, e))),
      ))

read_peer-Ends :
    (decoded : List ℕ) (decoded_size : ℕ)
    → length decoded ≡ maximum_engine_datagram_size
    → Ends IsDatagramRoute (read_peer decoded decoded_size)
unfolding read_peer
read_peer-Ends decoded decoded_size long =
    let (peer, run) = load_number-ok decoded 8 5 (omega (arith, long)) in
    if-Ends IsDatagramRoute (ltb decoded_size (connection_header_size + 8)) (ok none)
      (load_number decoded 8 connection_header_size >>= λ p.
        if p == 0 then ok none else ok (some record { connection_id = 0; peer_id = p }))
      (λ _. nothing)
      (λ _.
        bind-Ends IsDatagramRoute (load_number decoded 8 connection_header_size)
          (λ p. if p == 0 then ok none else ok (some record { connection_id = 0; peer_id = p }))
          peer run (found_peer peer))

-- The number of a connection has 24 bits.
three_bytes :
    (b2 b3 b4 : ℕ)
    → b2 < 256
    → b3 < 256
    → b4 < 256
    → bit_or (b4 * 2 ^ 16) (bit_or (b3 * 2 ^ 8) b2) < 2 ^ 24
three_bytes b2 b3 b4 h2 h3 h4 =
    let low = bit_or-shift 8 b3 b2 (omega (arith, h2)) in
    let high = bit_or-shift 16 b4 (bit_or (b3 * 2 ^ 8) b2) (omega (arith, low, h2, h3)) in
    omega (arith, low, high, h2, h3, h4)

read_decoded-Ends :
    (decoded : List ℕ) (decoded_size : ℕ)
    → length decoded ≡ maximum_engine_datagram_size
    → AreBytes decoded
    → Ends IsDatagramRoute (read_decoded decoded decoded_size)
unfolding read_decoded
read_decoded-Ends decoded decoded_size long small =
    let P = IsDatagramRoute in
    load-Ends P decoded 0 _ small (omega (arith, long)) (λ b0 _.
      load-Ends P decoded 1 _ small (omega (arith, long)) (λ b1 _.
        if-Ends P _ _ _ (λ _. nothing)
          (λ _. load-Ends P decoded 2 _ small (omega (arith, long)) (λ b2 h2.
            load-Ends P decoded 3 _ small (omega (arith, long)) (λ b3 h3.
              load-Ends P decoded 4 _ small (omega (arith, long)) (λ b4 h4.
                let connection = bit_or (b4 * 2 ^ 16) (bit_or (b3 * 2 ^ 8) b2) in
                if-Ends P (not (connection == 0)) _ _
                  (λ e. (
                    some record { connection_id = connection; peer_id = 0 },
                    refl,
                    (three_bytes b2 b3 b4 h2 h3 h4, inl (ground (arith, e), refl)),
                  ))
                  (λ _. read_peer-Ends decoded decoded_size long)))))))

-- What the decoder gives.
decoded-Ends :
    (output : Option (List ℕ)) (decoded_size : ℕ)
    → ((decoded : List ℕ)
        → output ≡ some decoded
        → (length decoded ≡ maximum_engine_datagram_size) × AreBytes decoded)
    → Ends IsDatagramRoute
        (elim output [ none ↦ ok none | some decoded ↦ read_decoded decoded decoded_size ])
decoded-Ends none decoded_size v = nothing
decoded-Ends (some decoded) decoded_size v =
    let (long, small) = v decoded refl in read_decoded-Ends decoded decoded_size long small

-- The size of the header is 1 or 2.
read_length-ok :
    (packet : List ℕ) → 2 ≤ length packet → (r : ℕ × ℕ) × (read_length packet ≡ ok r) × (r.0 ≤ 2)
unfolding read_length
read_length-ok packet long =
    let (first, e) = get_elem?-of_lt packet 0 (omega (arith, long)) in
    let (second, f) = get_elem?-of_lt packet 1 (omega (arith, long)) in
    elim (Bool-cases (ltb extended_length_threshold first)) [
      | inl extended ↦ (
        (2, ((first * 2 ^ 8 + 2 ^ 64 - extended_length_bias) % 2 ^ 64 + second) % 2 ^ 64),
        rw (load-eq_ok packet 0 e, extended, load-eq_ok packet 1 f) refl,
        omega arith,
      )
      | inr plain ↦ ((1, first), rw (load-eq_ok packet 0 e, plain) refl, omega arith)
    ]

module _ (decode : Decoder) (v : IsDecoder decode) (packet : List ℕ) where
  call_decoder-ok :
      (at encoded_size decoded_size : ℕ)
      → at + encoded_size ≤ length packet
      → decoded_size ≤ maximum_engine_datagram_size
      → call_decoder decode packet at encoded_size decoded_size
        ≡ ok (decode (take encoded_size (drop at packet)) decoded_size)
  unfolding call_decoder
  call_decoder-ok at encoded_size decoded_size inside fits = ground (arith, inside, fits)

  decode_packet-Ends :
      (packet_size : ℕ) (sizes : ℕ × ℕ)
      → 2 ≤ packet_size
      → packet_size ≤ length packet
      → sizes.0 ≤ 2
      → Ends IsDatagramRoute (decode_packet decode packet packet_size sizes)
  unfolding decode_packet
  decode_packet-Ends packet_size (header_size, decoded_size) some_bytes inside short =
      if-Ends IsDatagramRoute _ (ok none) _ (λ _. nothing)
        (λ fits.
          let encoded = take (packet_size - header_size) (drop header_size packet) in
          bind-Ends IsDatagramRoute
            (call_decoder decode packet header_size (packet_size - header_size) decoded_size)
            (λ output. elim output [
              | none ↦ ok none
              | some decoded ↦ read_decoded decoded decoded_size
            ])
            (decode encoded decoded_size)
            (call_decoder-ok header_size (packet_size - header_size) decoded_size
              (omega (arith, some_bytes, inside, short)) (ground (arith, fits)))
            (decoded-Ends (decode encoded decoded_size) decoded_size
              (λ decoded e. v encoded decoded_size decoded (ground (arith, fits)) e)))

  -- With a decoder that for a decoded size of at most 1200 leaves bytes in its array of 1200,
  -- and for a packet of at least the size that is given, `read_route` ends; neither the function
  -- nor the decoder that it calls reads outside the packet or writes or reads outside the array;
  -- a route that it returns has the number of a connection, below 2 ^ 24 and not 0, and no peer,
  -- or no number and a peer that is not 0.
  pub read_route-Ends :
      (packet_size : ℕ)
      → packet_size ≤ length packet
      → Ends IsDatagramRoute (read_route decode packet packet_size)
  unfolding read_route
  read_route-Ends packet_size inside =
      if-Ends IsDatagramRoute (ltb packet_size 2 || ltb maximum_engine_datagram_size packet_size)
        (ok none) (read_length packet >>= decode_packet decode packet packet_size) (λ _. nothing)
        (λ e.
          let (sizes, run, short) = read_length-ok packet (ground (arith, e, inside)) in
          bind-Ends IsDatagramRoute (read_length packet) (decode_packet decode packet packet_size)
            sizes run (decode_packet-Ends packet_size sizes (ground (arith, e)) inside short))
