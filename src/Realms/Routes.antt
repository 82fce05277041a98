-- ===== src/Realms/Routes.antt =====
-- realms_protocol.cpp: the route of a peer and the members of a lobby, read from the memory of the
-- game. A read of a byte that is not committed and readable is the fault `out_of_bounds`.
pub mod Reads
pub mod Ends
pub mod Members
use darktide_mods.Base.{
  ℕ, zero, suc, ◌+◌, ◌*◌, ◌%◌, ◌^◌, Bool, true, false, not, ◌&&◌, ◌||◌, Option, none, some,
  if◌then◌else◌, ltb, ◌==◌, Run, ok, fault, out_of_bounds, ◌>>=◌,
}
use darktide_mods.InternalUtils.Memory.{Memory}
use darktide_mods.InternalUtils.Ranges.{
  Query, mem_commit, is_readable_protection, is_readable_range,
}

abbrev pub is_readable_byte : Query → ℕ → Bool
is_readable_byte query address = elim (query address) [
  | none ↦ false
  | some region ↦ region.state == mem_commit && is_readable_protection region.protect
]

-- `memcpy` of some bytes into an integer, least byte first.
unfoldable pub load_bytes : Query → Memory → ℕ → ℕ → Run ℕ
load_bytes query memory zero address = ok 0
load_bytes query memory (suc size) address =
    let rest =
      load_bytes query memory size (address + 1) >>= λ high. ok (memory address + 256 * high) in
    if is_readable_byte query address then rest else fault out_of_bounds

-- The code that the function returns, or the transport and the address for its code 0.
pub data RouteResult : Type 0 where
  no_route : ℕ → RouteResult
  route_found : ℕ → ℕ → RouteResult

-- `for (index = …; index < route_count; ++index)`, with the count of rounds that are left.
unfoldable pub find_route : Query → Memory → ℕ → ℕ → ℕ → ℕ → ℕ → Run RouteResult
unfolding load_bytes
find_route query memory peer_id transport entries index zero = ok (no_route 7)
find_route query memory peer_id transport entries index (suc rounds) =
    let entry = (entries + index * 0x30) % 2 ^ 64 in
    let rest = find_route query memory peer_id transport entries (index + 1) rounds in
    is_readable_range query entry 0x30 >>= λ readable.
    if not readable
    then ok (no_route 6)
    else load_bytes query memory 8 entry >>= λ mapped_peer_id.
        if not (mapped_peer_id == peer_id)
        then rest
        else load_bytes query memory 2 (entry + 8) >>= λ family.
            if not (family == 23) && not (family == 2)
            then ok (no_route 8)
            else ok (route_found transport (entry + 8))

-- The table of routes of a transport.
unfoldable pub read_routes : Query → Memory → ℕ → ℕ → Run RouteResult
unfolding find_route load_bytes
read_routes query memory peer_id transport =
    let header = (transport + 0x80) % 2 ^ 64 in
    is_readable_range query header 16 >>= λ readable.
    if not readable
    then ok (no_route 4)
    else load_bytes query memory 4 header >>= λ count.
        load_bytes query memory 4 (header + 4) >>= λ capacity.
        load_bytes query memory 8 (header + 8) >>= λ entries.
        if ltb capacity count || ltb 0x10000 count || not (count == 0) && entries == 0
        then ok (no_route 5)
        else find_route query memory peer_id transport entries 0 count

unfoldable pub resolve_peer_reply_route : Query → Memory → ℕ → ℕ → Run RouteResult
unfolding read_routes load_bytes
resolve_peer_reply_route query memory connection peer_id =
    let location = (connection + 0x58) % 2 ^ 64 in
    if connection == 0 || peer_id == 0
    then ok (no_route 1)
    else (is_readable_range query location 8 >>= λ readable.
        if not readable
        then ok (no_route 2)
        else load_bytes query memory 8 location >>= λ transport.
            if transport == 0 then ok (no_route 3) else read_routes query memory peer_id transport)

-- The loop of `lobby_contains_peer`.
unfoldable pub find_member : Query → Memory → ℕ → ℕ → ℕ → ℕ → Run Bool
unfolding load_bytes
find_member query memory peer_id members index zero = ok false
find_member query memory peer_id members index (suc rounds) =
    let rest = find_member query memory peer_id members (index + 1) rounds in
    load_bytes query memory 8 (members + index * 0x60) >>= λ member_peer_id.
    if member_peer_id == peer_id then ok true else rest

unfoldable pub lobby_contains_peer : Query → Memory → ℕ → ℕ → Run Bool
unfolding find_member load_bytes
lobby_contains_peer query memory lobby peer_id =
    if lobby == 0
    then ok false
    else (is_readable_range query lobby 0x668 >>= λ readable.
        if not readable
        then ok false
        else load_bytes query memory 4 (lobby + 0x5a8) >>= λ count.
            load_bytes query memory 8 (lobby + 0x5b0) >>= λ members.
            if count == 0 || ltb 64 count || members == 0
            then ok false
            else is_readable_range query members (count * 0x60) >>= λ listed.
                if not listed then ok false else find_member query memory peer_id members 0 count)
