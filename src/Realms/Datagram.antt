-- ===== src/Realms/Datagram.antt =====
-- realms_datagram.cpp: the route that a datagram of the game names. The decoder of Oodle is an
-- argument: from the encoded bytes and the decoded size it gives the array `decoded` after the call,
-- or `none` where it returns 0. A packet is its bytes, and its size comes with it.
pub mod Decoded
use darktide_mods.Base.{
  ℕ, zero, suc, ◌+◌, ◌-◌, ◌*◌, ◌%◌, ◌^◌, Bool, true, false, not, ◌||◌, Option, none, some, List,
  if◌then◌else◌, ltb, ◌==◌, bit_or, take, drop, length, Run, ok, fault, out_of_bounds, ◌>>=◌, load,
}

pub record DatagramRoute : Type 0 where
  pub connection_id : ℕ
  pub peer_id : ℕ

abbrev pub maximum_engine_datagram_size : ℕ
maximum_engine_datagram_size = 1200

abbrev pub connection_header_size : ℕ
connection_header_size = 5

abbrev pub extended_length_threshold : ℕ
extended_length_threshold = 247

abbrev pub extended_length_bias : ℕ
extended_length_bias = 0xf708

abbrev pub datagram_protocol : ℕ
datagram_protocol = 0x3ee5

abbrev pub Decoder : Type 0
Decoder = List ℕ → ℕ → Option (List ℕ)

-- The size of the header and the decoded size.
unfoldable pub read_length : List ℕ → Run (ℕ × ℕ)
read_length packet = load packet 0 >>= λ first.
    if ltb extended_length_threshold first
    then (load packet 1 >>= λ second.
        ok (2, ((first * 2 ^ 8 + 2 ^ 64 - extended_length_bias) % 2 ^ 64 + second) % 2 ^ 64))
    else ok (1, first)

-- `memcpy` into an integer, least byte first.
unfoldable pub load_number : List ℕ → ℕ → ℕ → Run ℕ
load_number bytes zero at = ok 0
load_number bytes (suc n) at =
    load bytes at >>= λ low. load_number bytes n (at + 1) >>= λ high. ok (low + 256 * high)

-- The peer, where the connection has no number.
unfoldable pub read_peer : List ℕ → ℕ → Run (Option DatagramRoute)
unfolding load_number
read_peer decoded decoded_size =
    if ltb decoded_size (connection_header_size + 8)
    then ok none
    else (load_number decoded 8 connection_header_size >>= λ peer.
        if peer == 0 then ok none else ok (some record { connection_id = 0; peer_id = peer }))

unfoldable pub read_decoded : List ℕ → ℕ → Run (Option DatagramRoute)
unfolding read_peer
read_decoded decoded decoded_size = load decoded 0 >>= λ b0. load decoded 1 >>= λ b1.
    if not (bit_or (b1 * 2 ^ 8) b0 == datagram_protocol)
    then ok none
    else load decoded 2 >>= λ b2. load decoded 3 >>= λ b3. load decoded 4 >>= λ b4.
        let connection = bit_or (b4 * 2 ^ 16) (bit_or (b3 * 2 ^ 8) b2) in
        if not (connection == 0)
        then ok (some record { connection_id = connection; peer_id = 0 })
        else read_peer decoded decoded_size

-- The decoder reads `encoded_size` bytes of the packet and writes `decoded_size` bytes of its array.
unfoldable pub call_decoder : Decoder → List ℕ → ℕ → ℕ → ℕ → Run (Option (List ℕ))
call_decoder decode packet at encoded_size decoded_size =
    if ltb (length packet) (at + encoded_size) || ltb maximum_engine_datagram_size decoded_size
    then fault out_of_bounds
    else ok (decode (take encoded_size (drop at packet)) decoded_size)

unfoldable pub decode_packet : Decoder → List ℕ → ℕ → ℕ × ℕ → Run (Option DatagramRoute)
unfolding read_decoded call_decoder
decode_packet decode packet packet_size (header_size, decoded_size) =
    let encoded_size = packet_size - header_size in
    if ltb decoded_size connection_header_size
      || ltb maximum_engine_datagram_size decoded_size
      || ltb decoded_size encoded_size
    then ok none
    else call_decoder decode packet header_size encoded_size decoded_size >>= λ output.
        elim output [ none ↦ ok none | some decoded ↦ read_decoded decoded decoded_size ]

-- `route`, or `none` where the function returns false. A negative size is below 2 as well.
unfoldable pub read_route : Decoder → List ℕ → ℕ → Run (Option DatagramRoute)
unfolding read_length decode_packet
read_route decode packet packet_size =
    if ltb packet_size 2 || ltb maximum_engine_datagram_size packet_size
    then ok none
    else read_length packet >>= decode_packet decode packet packet_size
