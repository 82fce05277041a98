-- ===== src/Realms/Routes/Ends.antt =====
-- The routes and the members are found without a read outside readable memory.
use darktide_mods.Base.{
  ℕ, zero, suc, ◌+◌, ◌*◌, ◌%◌, ◌^◌, ◌≤◌, ◌<◌, ◌≡◌, ◌≢◌, ◌⊎◌, refl, sym, ap, subst, ◌∙◌, arith, true,
  false, not, ◌&&◌, ok, ◌==◌, ℕ_discrete,
}
use darktide_mods.InternalUtils.Memory.{Memory}
use darktide_mods.InternalUtils.Ranges.{Query}
use darktide_mods.InternalUtils.Ranges.Committed.{IsQuery}
use darktide_mods.Realms.Routes.{
  load_bytes, RouteResult, no_route, route_found, find_route, read_routes, resolve_peer_reply_route,
}
use darktide_mods.Realms.Routes.Reads.{Ends, if-Ends, checked-Ends, load-Ends}

-- The entry of the table at an index names the peer.
abbrev pub Names : Query → Memory → ℕ → ℕ → ℕ → Type 0
Names query memory peer_id entries index =
    load_bytes query memory 8 ((entries + index * 0x30) % 2 ^ 64) ≡ ok peer_id

-- The table of the routes of a connection, as the pointers in memory give it.
pub record IsTable (query : Query) (memory : Memory) (connection transport entries count : ℕ)
    : Type 0 where
  pub transport_at : load_bytes query memory 8 ((connection + 0x58) % 2 ^ 64) ≡ ok transport
  pub some_transport : transport ≢ 0
  pub count_at : load_bytes query memory 4 ((transport + 0x80) % 2 ^ 64) ≡ ok count
  pub capacity : ℕ
  pub capacity_at : load_bytes query memory 4 ((transport + 0x80) % 2 ^ 64 + 4) ≡ ok capacity
  pub entries_at : load_bytes query memory 8 ((transport + 0x80) % 2 ^ 64 + 8) ≡ ok entries
  pub within : count ≤ capacity
  pub few : count ≤ 0x10000

-- The route is in the first entry that names the peer, right after the peer.
pub record IsListed (query : Query) (memory : Memory) (peer_id entries count route : ℕ)
    : Type 0 where
  pub index : ℕ
  pub inside : index < count
  pub at_entry : route ≡ (entries + index * 0x30) % 2 ^ 64 + 8
  pub named : Names query memory peer_id entries index
  pub first : (j : ℕ) → j < index → ¬ Names query memory peer_id entries j
  pub family : ℕ
  pub family_at : load_bytes query memory 2 route ≡ ok family
  pub known_family : (family ≡ 23) ⊎ (family ≡ 2)

-- No entry of the table names the peer.
abbrev pub IsUnlisted : Query → Memory → ℕ → ℕ → ℕ → Type 0
IsUnlisted query memory peer_id entries count =
    (j : ℕ) → j < count → ¬ Names query memory peer_id entries j

-- The result for a connection: a code, which is 7 only where the table lacks the peer, or the
-- transport and a route that its table lists.
abbrev pub IsRoute : Query → Memory → ℕ → ℕ → RouteResult → Type 0
IsRoute query memory connection peer_id (no_route code) =
    (0 < code)
    × (code ≤ 8)
    × (code ≡ 7
        → (transport entries count : ℕ) × IsTable query memory connection transport entries count
          × IsUnlisted query memory peer_id entries count)
IsRoute query memory connection peer_id (route_found transport route) =
    (entries count : ℕ) × IsTable query memory connection transport entries count
    × IsListed query memory peer_id entries count route

-- The same for the loop over a table.
abbrev IsFound : Query → Memory → ℕ → ℕ → ℕ → ℕ → RouteResult → Type 0
IsFound query memory peer_id transport entries count (no_route code) =
    (0 < code) × (code ≤ 8) × (code ≡ 7 → IsUnlisted query memory peer_id entries count)
IsFound query memory peer_id transport entries count (route_found t route) =
    (t ≡ transport) × IsListed query memory peer_id entries count route

wrapped : (n : ℕ) → n % 2 ^ 64 < 2 ^ 64
wrapped n = omega arith

module _ (query : Query) (v : IsQuery query) (memory : Memory) (peer_id : ℕ) where
  is_peer :
      (mapped entries index : ℕ)
      → load_bytes query memory 8 ((entries + index * 0x30) % 2 ^ 64) ≡ ok mapped
      → not (mapped == peer_id) ≡ false
      → Names query memory peer_id entries index
  is_peer mapped entries index run same =
      let e : mapped ≡ peer_id = ground (arith, same) in run ∙ ap ok e

  other_peer :
      (mapped entries index : ℕ)
      → load_bytes query memory 8 ((entries + index * 0x30) % 2 ^ 64) ≡ ok mapped
      → not (mapped == peer_id) ≡ true
      → ¬ Names query memory peer_id entries index
  other_peer mapped entries index run other named =
      let e : mapped ≡ peer_id = cc (run, named) in ground (arith, other, e)

  module _ (transport entries count : ℕ) where
    find_route-Ends :
        (index rounds : ℕ)
        → index + rounds ≡ count
        → ((j : ℕ) → j < index → ¬ Names query memory peer_id entries j)
        → Ends
            (IsFound query memory peer_id transport entries count)
            (find_route query memory peer_id transport entries index rounds)
    unfolding find_route
    find_route-Ends index zero all missed =
        (no_route 7, refl, (omega arith, omega arith, λ e j h. missed j (omega (arith, h, all))))
    find_route-Ends index (suc rounds) all missed =
        let entry = (entries + index * 0x30) % 2 ^ 64 in
        let P = IsFound query memory peer_id transport entries count in
        checked-Ends query memory v P entry 0x30 _ _ (wrapped _) (omega arith)
          (no_route 6, refl, (omega arith, omega arith, λ e. absurd (omega (arith, e))))
          (λ fits pages.
            load-Ends query memory v P entry 0x30 entry 8 _ pages (omega arith) (omega arith)
              (λ mapped run.
                if-Ends P (not (mapped == peer_id)) _ _
                  (λ other. find_route-Ends (index + 1) rounds (omega (arith, all)) (λ j h.
                    elim (ℕ_discrete j index) [
                      | yes last ↦
                          subst (λ i. ¬ Names query memory peer_id entries i) (sym last)
                            (other_peer mapped entries index run other)
                      | no before ↦ missed j (omega (arith, h, before))
                    ]))
                  (λ same.
                    load-Ends query memory v P entry 0x30 (entry + 8) 2 _ pages (omega arith)
                      (omega arith)
                      (λ family read.
                        if-Ends P (not (family == 23) && not (family == 2)) _ _
                          (λ bad. (
                            no_route 8,
                            refl,
                            (omega arith, omega arith, λ e. absurd (omega (arith, e))),
                          ))
                          (λ good. (
                            route_found transport (entry + 8),
                            refl,
                            (
                              refl,
                              record {
                                index = index;
                                inside = omega (arith, all);
                                at_entry = refl;
                                named = is_peer mapped entries index run same;
                                first = missed;
                                family = family;
                                family_at = read;
                                known_family = ground (arith, good);
                              },
                            ),
                          ))))))

  module _ (connection : ℕ) where
    no_route-Ends :
        (code : ℕ)
        → 0 < code
        → code ≤ 8
        → code ≢ 7
        → Ends (IsRoute query memory connection peer_id) (ok (no_route code))
    no_route-Ends code low high searched =
        (no_route code, refl, (low, high, λ e. absurd (searched e)))

    -- What the loop finds in the table of the connection.
    in_table :
        (transport entries count : ℕ)
        → IsTable query memory connection transport entries count
        → (r : RouteResult) → IsFound query memory peer_id transport entries count r
        → IsRoute query memory connection peer_id r
    in_table transport entries count t (no_route code) (low, high, unlisted) =
        (low, high, λ e. (transport, entries, count, t, unlisted e))
    in_table transport entries count t (route_found found route) (same, listed) = (
      entries,
      count,
      subst (λ x. IsTable query memory connection x entries count) (sym same) t,
      listed,
    )

    searched-Ends :
        (transport entries count : ℕ)
        → IsTable query memory connection transport entries count
        → Ends
            (IsRoute query memory connection peer_id)
            (find_route query memory peer_id transport entries 0 count)
    searched-Ends transport entries count t =
        let (r, run, found) =
          find_route-Ends transport entries count 0 count (omega arith)
            (λ j h. absurd (omega (arith, h))) in
        (r, run, in_table transport entries count t r found)

    read_routes-Ends :
        (transport : ℕ)
        → load_bytes query memory 8 ((connection + 0x58) % 2 ^ 64) ≡ ok transport
        → transport ≢ 0
        → Ends
            (IsRoute query memory connection peer_id)
            (read_routes query memory peer_id transport)
    unfolding read_routes
    read_routes-Ends transport at some_transport =
        let header = (transport + 0x80) % 2 ^ 64 in
        let P = IsRoute query memory connection peer_id in
        checked-Ends query memory v P header 16 _ _ (wrapped _) (omega arith)
          (no_route-Ends 4 (omega arith) (omega arith) (omega arith))
          (λ fits pages.
            load-Ends query memory v P header 16 header 4 _ pages (omega arith) (omega arith)
              (λ count count_at.
                load-Ends query memory v P header 16 (header + 4) 4 _ pages (omega arith)
                  (omega arith)
                  (λ capacity capacity_at.
                    load-Ends query memory v P header 16 (header + 8) 8 _ pages (omega arith)
                      (omega arith)
                      (λ entries entries_at.
                        if-Ends P _ _ _
                          (λ _. no_route-Ends 5 (omega arith) (omega arith) (omega arith))
                          (λ fair. searched-Ends transport entries count (record {
                            transport_at = at;
                            some_transport = some_transport;
                            count_at = count_at;
                            capacity = capacity;
                            capacity_at = capacity_at;
                            entries_at = entries_at;
                            within = ground (arith, fair);
                            few = ground (arith, fair);
                          }))))))

    -- Where the query behaves as documented, `resolve_peer_reply_route` ends for every memory,
    -- connection and peer without a read of a byte that is not committed and readable. It
    -- returns the transport that the connection points to, not null, and the route right after
    -- the peer in the first entry that names the peer, of the count of 48-byte entries of the
    -- transport's table, which is of one of the two address families; or a code from 1 to 8,
    -- which is 7 only if no entry of that table names the peer.
    pub resolve_peer_reply_route-Ends :
        Ends
          (IsRoute query memory connection peer_id)
          (resolve_peer_reply_route query memory connection peer_id)
    unfolding resolve_peer_reply_route
    resolve_peer_reply_route-Ends =
        let location = (connection + 0x58) % 2 ^ 64 in
        let P = IsRoute query memory connection peer_id in
        if-Ends P _ _ _ (λ _. no_route-Ends 1 (omega arith) (omega arith) (omega arith))
          (λ _.
            checked-Ends query memory v P location 8 _ _ (wrapped _) (omega arith)
              (no_route-Ends 2 (omega arith) (omega arith) (omega arith))
              (λ fits pages.
                load-Ends query memory v P location 8 location 8 _ pages (omega arith) (omega arith)
                  (λ transport at.
                    if-Ends P (transport == 0) _ _
                      (λ _. no_route-Ends 3 (omega arith) (omega arith) (omega arith))
                      (λ e. read_routes-Ends transport at (ground (arith, e))))))
