-- ===== src/Realms/Slots/Distinct.antt =====
-- No two slots are of one peer, whatever is claimed and cleared.
use darktide_mods.Base.{
  ℕ, ◌+◌, ◌≡◌, ◌≢◌, ◌⊎◌, sym, subst, ◌∙◌, inl, inr, arith, none, some, List, get_elem?, ℕ_discrete,
}
use darktide_mods.Realms.Slots.{
  HostPeerSlot, modify, find_host_peer_slot, claim_host_peer_slot, clear_host_peer_slot,
}
use darktide_mods.Realms.Slots.Finds.{
  HasPeer, NoPeer, IsPeerAt, find_slot-peer, find_slot-none, find_slot-same, HasPeer-modify_other,
  HasPeer-modify_self, HasPeer-modify, first_peer,
}
use darktide_mods.Realms.Slots.Claim.{
  claim_cases, find_host_peer_slot_iff, find_host_peer_slot_zero,
}

abbrev pub AreDistinct : List HostPeerSlot → Type 0
AreDistinct slots = (peer i j : ℕ) → peer ≢ 0 → HasPeer slots i peer → HasPeer slots j peer → i ≡ j

distinct-modify :
    (slots : List HostPeerSlot) (k : ℕ) (s : HostPeerSlot) (f : HostPeerSlot → HostPeerSlot)
    → AreDistinct slots
    → get_elem? slots k ≡ some s
    → ((q : ℕ) → q ≢ 0 → (f s).peer_id ≡ q → (s.peer_id ≡ q) ⊎ NoPeer slots q)
    → AreDistinct (modify k f slots)
distinct-modify slots k s f v get new q i j nonzero hi hj = elim (ℕ_discrete i k) [
  | yes ik ↦ elim (ℕ_discrete j k) [
    | yes jk ↦ ik ∙ sym jk
    | no other ↦ ik ∙ onto j (subst (λ n. HasPeer (modify k f slots) n q) ik hi) (before j other hj)
  ]
  | no other ↦ elim (ℕ_discrete j k) [
    | yes jk ↦
        sym (jk ∙ onto i (subst (λ n. HasPeer (modify k f slots) n q) jk hj) (before i other hi))
    | no other2 ↦ v q i j nonzero (before i other hi) (before j other2 hj)
  ]
]
  where
    before : (n : ℕ) → n ≢ k → HasPeer (modify k f slots) n q → HasPeer slots n q
    before n other h = (HasPeer-modify_other f slots k n q other).0 h

    onto : (n : ℕ) → HasPeer (modify k f slots) k q → HasPeer slots n q → k ≡ n
    onto n h g = elim (new q nonzero ((HasPeer-modify_self f slots k q s get).0 h)) [
      | inl mine ↦ v q k n nonzero (s, get, mine) g
      | inr free ↦ absurd (free n g)
    ]

pub claim_host_peer_slot-Distinct :
    (peer tick : ℕ) (slots : List HostPeerSlot)
    → AreDistinct slots
    → AreDistinct (claim_host_peer_slot peer tick slots).0
claim_host_peer_slot-Distinct peer tick slots v = elim (claim_cases peer tick slots) [
  | inl (g, free, full) ↦ subst (λ r. AreDistinct r.0) (sym g) v
  | inr (k, s, f, run, get, was, now, _, free) ↦
      subst (λ r. AreDistinct r.0) (sym run)
        (distinct-modify slots k s f v get (λ q nonzero e. new s was (free) q (sym now ∙ e)))
]
  where
    new :
        (s : HostPeerSlot)
        → (s.peer_id ≡ peer) ⊎ (s.peer_id ≡ 0)
        → (s.peer_id ≡ 0 → s.peer_id ≢ peer → NoPeer slots peer)
        → (q : ℕ) → peer ≡ q
        → (s.peer_id ≡ q) ⊎ NoPeer slots q
    new s was free q same = elim (ℕ_discrete s.peer_id peer) [
      | yes mine ↦ inl (mine ∙ same)
      | no other ↦ inr (subst (λ n. NoPeer slots n) same (free (ground (arith, was, other)) other))
    ]

found_peer :
    (peer i : ℕ) (slots : List HostPeerSlot)
    → find_host_peer_slot peer slots ≡ some i
    → peer ≢ 0 × IsPeerAt slots i peer
found_peer peer i slots e = elim (ℕ_discrete peer 0) [
  | yes z ↦ let g = find_host_peer_slot_zero peer slots z in absurd cc
  | no nonzero ↦
      let opened = find_host_peer_slot_iff peer slots nonzero in
      elim (first_peer slots peer) [
        | inl free ↦ let g = find_slot-none peer slots 0 free in absurd cc
        | inr (k, h) ↦
            let g = find_slot-peer peer slots 0 k h in
            let same : 0 + k ≡ i = cc in
            (nonzero, subst (λ n. IsPeerAt slots n peer) (omega (arith, same)) h)
      ]
]

-- If no two slots are of one peer, then after the slot found for a peer is cleared the peer is
-- not found, every other peer is found where it was, and no two slots are of one peer.
pub clear_host_peer_slot-find :
    (peer i : ℕ) (slots : List HostPeerSlot)
    → AreDistinct slots
    → find_host_peer_slot peer slots ≡ some i
    → (find_host_peer_slot peer (modify i clear_host_peer_slot slots) ≡ none)
      × ((q : ℕ)
          → q ≢ peer
          → find_host_peer_slot q (modify i clear_host_peer_slot slots)
            ≡ find_host_peer_slot q slots)
      × AreDistinct (modify i clear_host_peer_slot slots)
unfolding clear_host_peer_slot
clear_host_peer_slot-find peer i slots v e =
    let (nonzero, ((s, get, mine), least)) = found_peer peer i slots e in
    (
      find_host_peer_slot_iff peer _ nonzero ∙ find_slot-none peer _ 0 (gone nonzero s get mine),
      others s get mine,
      distinct-modify slots i s clear_host_peer_slot v get (λ q z f. absurd (z (sym f))),
    )
  where
    gone :
        peer ≢ 0
        → (s : HostPeerSlot) → get_elem? slots i ≡ some s
        → s.peer_id ≡ peer
        → NoPeer (modify i clear_host_peer_slot slots) peer
    gone nonzero s get mine j h = elim (ℕ_discrete j i) [
      | yes same ↦ nonzero (
          sym (
            (HasPeer-modify_self clear_host_peer_slot slots i peer s get).0
              (subst (λ n. HasPeer (modify i clear_host_peer_slot slots) n peer) same h)))
      | no other ↦ other (
          v peer j i nonzero ((HasPeer-modify_other clear_host_peer_slot slots i j peer other).0 h)
            (s, get, mine))
    ]

    others :
        (s : HostPeerSlot)
        → get_elem? slots i ≡ some s
        → s.peer_id ≡ peer
        → (q : ℕ) → q ≢ peer
        → find_host_peer_slot q (modify i clear_host_peer_slot slots) ≡ find_host_peer_slot q slots
    others s get mine q other = elim (ℕ_discrete q 0) [
      | yes z ↦ find_host_peer_slot_zero q _ z ∙ sym (find_host_peer_slot_zero q slots z)
      | no nonzero ↦
          find_host_peer_slot_iff q _ nonzero
          ∙ find_slot-same q _ slots (
              HasPeer-modify clear_host_peer_slot slots i q s get (λ f. other (sym f ∙ mine))
                (λ f. nonzero (sym f)))
          ∙ sym (find_host_peer_slot_iff q slots nonzero)
    ]
