-- ===== src/Realms/Packet.antt =====
-- realms_protocol.cpp: bits appended to a buffer, and the reply to a connection request. A buffer is
-- its bytes, so its length is the capacity; the pointers to the buffer and the offset are not null.
pub mod Append
pub mod Fields
pub mod Copy
pub mod Reply
use darktide_mods.Base.{
  ℕ, zero, suc, ◌+◌, ◌-◌, ◌*◌, ◌/◌, ◌%◌, ◌^◌, Bool, true, false, not, ◌||◌, Option, none, some,
  List, [], ◌∷◌, ◌++◌, if◌then◌else◌, ltb, leb, ◌==◌, bit_and, bit_or, length, get_or, set, take,
  drop, replicate, Run, ok, fault, out_of_bounds, out_of_fuel, ◌>>=◌,
}

-- `for (index = …; index < bit_count; ++index)`, with the count of rounds that are left.
unfoldable pub or_bits : List ℕ → ℕ → ℕ → ℕ → ℕ → List ℕ
or_bits buffer bit_offset value index zero = buffer
or_bits buffer bit_offset value index (suc rounds) =
    let destination = bit_offset + index in
    let written =
      set buffer (destination / 8)
        (bit_or (get_or buffer (destination / 8) 0) (2 ^ (destination % 8))) in
    or_bits (if bit_and value (2 ^ index) == 0 then buffer else written) bit_offset value
      (index + 1) rounds

-- The buffer and the offset after it, or `none` where there is no room.
unfoldable pub append_bits : List ℕ → ℕ → ℕ → ℕ → Option (List ℕ × ℕ)
unfolding or_bits
append_bits buffer bit_offset value bit_count =
    if ltb 64 bit_count
      || ltb (length buffer * 8) bit_offset
      || ltb (length buffer * 8 - bit_offset) bit_count
    then none
    else some (or_bits buffer bit_offset value 0 bit_count, bit_offset + bit_count)

-- `!append_bits(…) || !append_bits(…) || …`, on values with their counts of bits.
unfoldable pub append_all : List (ℕ × ℕ) → List ℕ → ℕ → Option (List ℕ × ℕ)
append_all [] buffer bit_offset = some (buffer, bit_offset)
append_all ((value, bit_count) ∷ fields) buffer bit_offset =
    elim (append_bits buffer bit_offset value bit_count) [
      | none ↦ none
      | some (after, next) ↦ append_all fields after next
    ]

abbrev pub wire_protocol : ℕ
wire_protocol = 0x3ee5

abbrev pub wire_address_size : ℕ
wire_address_size = 0x25

abbrev pub connect_reply_message : ℕ
connect_reply_message = 17

abbrev pub lobby_system : ℕ
lobby_system = 1

abbrev pub payload_fields : ℕ → List (ℕ × ℕ)
payload_fields lobby_id = (1, 1) ∷ (connect_reply_message, 6) ∷ (lobby_id, 64) ∷ (0, 1) ∷ []

abbrev pub header_fields : ℕ → List (ℕ × ℕ)
header_fields local_peer_id = (wire_protocol, 16) ∷ (0, 24) ∷ (local_peer_id, 64) ∷ []

abbrev pub size_fields : ℕ → ℕ → List (ℕ × ℕ)
size_fields payload_size payload_size_bits =
    (lobby_system, 4) ∷ (0, 8) ∷ (payload_size_bits, 4) ∷ (payload_size, payload_size_bits) ∷ []

-- `for (value = payload_size; value != 0; value >>= 1)`: the value is enough fuel.
unfoldable pub count_size_bits : ℕ → ℕ → Run ℕ
count_size_bits zero value = if value == 0 then ok 0 else fault out_of_fuel
count_size_bits (suc fuel) value =
    let rest = count_size_bits fuel (value / 2) >>= λ n. ok (n + 1) in
    if value == 0 then ok 0 else rest

-- `memcpy` into a buffer.
unfoldable pub copy_bytes : List ℕ → ℕ → List ℕ → Run (List ℕ)
copy_bytes buffer at bytes =
    if ltb (length buffer) (at + length bytes)
    then fault out_of_bounds
    else ok (take at buffer ++ bytes ++ drop (at + length bytes) buffer)

-- The rounding up to a whole byte, and the payload. `(bits + 7) & ~7` is `(bits + 7) / 8 * 8`.
unfoldable pub add_payload : List ℕ → ℕ → Option (List ℕ × ℕ) → Run (Option (List ℕ × ℕ))
unfolding copy_bytes
add_payload payload payload_size none = ok none
add_payload payload payload_size (some (packet, packet_bits)) =
    let packet_bytes = (packet_bits + 7) / 8 * 8 / 8 in
    let copied = copy_bytes packet packet_bytes (take payload_size payload) >>= λ after.
    ok (some (after, packet_bytes + payload_size)) in
    if ltb (length packet) packet_bytes || ltb (length packet - packet_bytes) payload_size
    then ok none
    else copied

-- The account, `char[kWireAddressSize]`, and the fields after it. The subtraction is of size_t.
unfoldable pub add_account :
    Option (List ℕ) → List ℕ → ℕ → ℕ → Option (List ℕ × ℕ) → Run (Option (List ℕ × ℕ))
unfolding add_payload copy_bytes append_all
add_account account payload payload_size payload_size_bits none = ok none
add_account none payload payload_size payload_size_bits (some (packet, packet_bits)) = ok none
add_account (some account) payload payload_size payload_size_bits (some (packet, packet_bits)) =
    let copied = copy_bytes packet (packet_bits / 8) (take wire_address_size account) >>= λ after.
    add_payload payload payload_size (
      append_all (size_fields payload_size payload_size_bits) after
        (packet_bits + wire_address_size * 8)) in
    if ltb ((length packet * 8 + 2 ^ 64 - wire_address_size * 8) % 2 ^ 64) packet_bits
    then ok none
    else copied

-- From the payload and the header on.
unfoldable pub add_body :
    Option (List ℕ) → Option (List ℕ × ℕ) → Option (List ℕ × ℕ) → Run (Option (List ℕ × ℕ))
unfolding add_account count_size_bits
add_body account header none = ok none
add_body account header (some (payload, payload_bits)) =
    let payload_size = (payload_bits + 7) / 8 in
    count_size_bits payload_size payload_size >>= λ payload_size_bits.
    add_account account payload payload_size payload_size_bits header

-- The packet and its size after the call, or `none` where it returns false. The packet is cleared
-- first, so that what it held does not matter.
unfoldable pub build_connect_reply_packet : ℕ → ℕ → Option (List ℕ) → ℕ → Run (Option (List ℕ × ℕ))
unfolding add_body append_all
build_connect_reply_packet local_peer_id lobby_id local_account_id packet_capacity =
    add_body local_account_id
      (append_all (header_fields local_peer_id) (replicate packet_capacity 0) 0)
      (append_all (payload_fields lobby_id) (replicate 16 0) 0)
