-- ===== src/Realms/Routes/Members.antt =====
-- The members of a lobby are searched without a read outside readable memory.
use darktide_mods.Base.{
  ℕ, zero, suc, ◌+◌, ◌*◌, ◌^◌, ◌≤◌, ◌<◌, ◌≡◌, ◌↔◌, refl, sym, ap, ℕ_discrete, inl, inr, ◌∙◌, arith,
  Bool, true, false, ◌||◌, Run, ok, fault, Bool-cases, ◌>>=◌, ltb, ◌==◌,
}
use native.Mathlib.Nat.{pow-suc}
use darktide_mods.InternalUtils.Memory.{Memory}
use darktide_mods.InternalUtils.Ranges.{Query, is_readable_protection}
use darktide_mods.InternalUtils.Ranges.Committed.{IsQuery, AreCommitted}
use darktide_mods.Realms.Routes.{load_bytes, is_readable_byte, find_member, lobby_contains_peer}
use darktide_mods.Realms.Routes.Reads.{Ends, if-Ends, checked-Ends, load-Ends}

below :
    (m : Run ℕ) (x w value : ℕ)
    → ((high : ℕ) → m ≡ ok high → high < w)
    → x < 256
    → m >>= (λ high. ok (x + 256 * high)) ≡ ok value
    → value < w * 256
below (ok high) x w value small byte e =
    let same : x + 256 * high ≡ value = cc in omega (arith, same, small high refl, byte)
below (fault f) x w value small byte e = absurd cc

-- Bytes that are below 256 make an integer of their size.
load_bytes-lt :
    (query : Query) (memory : Memory)
    → ((a : ℕ) → memory a < 256)
    → (size address value : ℕ) → load_bytes query memory size address ≡ ok value
    → value < 256 ^ size
unfolding load_bytes
load_bytes-lt query memory byte zero address value e =
    let same : 0 ≡ value = cc in omega (arith, same)
load_bytes-lt query memory byte (suc size) address value e =
    elim (Bool-cases (is_readable_byte query address)) [
      | inl readable ↦ rw (pow-suc 256 size) (
          below (load_bytes query memory size (address + 1)) (memory address) (256 ^ size) value
            (λ high f. load_bytes-lt query memory byte size (address + 1) high f) (byte address)
            (rw readable at e))
      | inr not_readable ↦ let f = (rw not_readable at e) in absurd cc
    ]

module _ (query : Query) (v : IsQuery query) (memory : Memory) (byte : (a : ℕ) → memory a < 256)
    (peer_id : ℕ) where
  abbrev IsFound : ℕ → ℕ → ℕ → Bool → Type 0
  IsFound members index rounds b = (b ≡ true) ↔ (
      (i : ℕ) × (index ≤ i)
      × (i < index + rounds)
      × (load_bytes query memory 8 (members + i * 0x60) ≡ ok peer_id))

  -- The members from an index on, in a list that was checked.
  find_member-Ends :
      (members size index rounds : ℕ)
      → AreCommitted query is_readable_protection members (members + size)
      → (index + rounds) * 0x60 ≤ size
      → Ends (IsFound members index rounds) (find_member query memory peer_id members index rounds)
  unfolding find_member
  find_member-Ends members size index zero pages inside =
      (false, refl, (λ e. cc, λ (i, low, high, _). absurd (omega (arith, low, high))))
  find_member-Ends members size index (suc rounds) pages inside =
      let (b, rest, same) =
        find_member-Ends members size (index + 1) rounds pages (omega (arith, inside)) in
      load-Ends query memory v (IsFound members index (suc rounds)) members size
        (members + index * 0x60) 8 _ pages (omega arith) (omega (arith, inside))
        (λ mapped run.
          if-Ends (IsFound members index (suc rounds)) (mapped == peer_id) _ _
            (λ mine. (
              true,
              refl,
              (λ _. (index, omega arith, omega arith, here mapped run mine), λ _. refl),
            ))
            (λ other. (
              b,
              rest,
              (
                λ e.
                    let (i, low, high, l) = same.0 e in
                    (i, omega (arith, low), omega (arith, high), l),
                λ (i, low, high, l). elim (ℕ_discrete i index) [
                  | yes at_index ↦ absurd (elsewhere mapped i at_index run l other)
                  | no later ↦ same.1 (i, omega (arith, low, later), omega (arith, high), l)
                ],
              ),
            )))
    where
      here :
          (mapped : ℕ)
          → load_bytes query memory 8 (members + index * 0x60) ≡ ok mapped
          → (mapped == peer_id) ≡ true
          → load_bytes query memory 8 (members + index * 0x60) ≡ ok peer_id
      here mapped run mine = let e : mapped ≡ peer_id = ground (arith, mine) in run ∙ ap ok e

      elsewhere :
          (mapped i : ℕ)
          → i ≡ index
          → load_bytes query memory 8 (members + index * 0x60) ≡ ok mapped
          → load_bytes query memory 8 (members + i * 0x60) ≡ ok peer_id
          → (mapped == peer_id) ≡ false
          → ⊥
      elsewhere mapped i e run l other =
          let moved : load_bytes query memory 8 (members + index * 0x60) ≡ ok peer_id =
            ap (λ n. load_bytes query memory 8 (members + n * 0x60)) (sym e) ∙ l in
          let same : mapped ≡ peer_id = cc in ground (arith, same, other)

  -- A lobby whose list of members has the peer.
  abbrev pub HasMember : ℕ → Type 0
  HasMember lobby =
      (count : ℕ) × (members : ℕ) × (load_bytes query memory 4 (lobby + 0x5a8) ≡ ok count)
      × (load_bytes query memory 8 (lobby + 0x5b0) ≡ ok members)
      × (count ≤ 64)
      × (i : ℕ) × (i < count)
      × (load_bytes query memory 8 (members + i * 0x60) ≡ ok peer_id)

  absent : (lobby : ℕ) → Ends (λ b. b ≡ true → HasMember lobby) (ok false)
  absent lobby = (false, refl, λ e. absurd cc)

  pub lobby_contains_peer-Ends :
      (lobby : ℕ)
      → lobby < 2 ^ 64
      → Ends (λ b. b ≡ true → HasMember lobby) (lobby_contains_peer query memory lobby peer_id)
  unfolding lobby_contains_peer
  lobby_contains_peer-Ends lobby fits =
      let P : Bool → Type 0 = λ b. b ≡ true → HasMember lobby in
      if-Ends P (lobby == 0) _ _ (λ _. absent lobby)
        (λ _.
          checked-Ends query memory v P lobby 0x668 _ _ fits (omega arith) (absent lobby)
            (λ _ pages.
              load-Ends query memory v P lobby 0x668 (lobby + 0x5a8) 4 _ pages (omega arith)
                (omega arith)
                (λ count read_count.
                  load-Ends query memory v P lobby 0x668 (lobby + 0x5b0) 8 _ pages (omega arith)
                    (omega arith)
                    (λ members read_members.
                      if-Ends P (count == 0 || ltb 64 count || members == 0) _ _ (λ _. absent lobby)
                        (λ few.
                          checked-Ends query memory v P members (count * 0x60) _ _
                            (omega (
                              arith,
                              load_bytes-lt query memory byte 8 (lobby + 0x5b0) members
                                  read_members,
                            ))
                            (ground (arith, few)) (absent lobby)
                            (λ _ listed.
                              let (b, run, same) =
                                find_member-Ends members (count * 0x60) 0 count listed
                                  (omega arith) in
                              (
                                b,
                                run,
                                λ e.
                                    let (i, _, high, l) = same.0 e in
                                    (
                                      count,
                                      members,
                                      read_count,
                                      read_members,
                                      ground (arith, few),
                                      i,
                                      omega (arith, high),
                                      l,
                                    ),
                              )))))))
