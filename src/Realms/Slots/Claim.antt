-- ===== src/Realms/Slots/Claim.antt =====
-- Which slot is claimed, and the slots after it.
use darktide_mods.Base.{
  ℕ, suc, ◌+◌, ◌≤◌, ◌<◌, ◌≡◌, ◌≢◌, ◌⊎◌, ◌↔◌, refl, sym, ap, subst, ◌∙◌, inl, inr, arith, Option,
  none, some, List, [], ◌∷◌, get_elem?, ℕ_discrete,
}
use darktide_mods.Realms.Slots.{
  HostPeerSlot, modify, find_slot, find_host_peer_slot, SlotSearch, at_peer, no_peer, empty_slot,
  search_slots, claim_found, claim_host_peer_slot, renew_slot, occupy_slot,
}
use darktide_mods.Realms.Slots.Finds.{
  HasPeer, NoPeer, IsPeerAt, NoPeer-nil, NoPeer-cons, IsPeerAt-cons, find_slot-peer, find_slot-same,
  HasPeer-modify_other, HasPeer-modify_self, HasPeer-modify,
}

-- The empty slot that the search remembers.
abbrev Emptied : List HostPeerSlot → ℕ → Option ℕ → Option ℕ → Type 0
Emptied slots index (some k) m = m ≡ some k
Emptied slots index none m =
    ((m ≡ none) × NoPeer slots 0) ⊎ ((i : ℕ) × (m ≡ some (index + i)) × IsPeerAt slots i 0)

Emptied-cons :
    (slot : HostPeerSlot) (slots : List HostPeerSlot) (index : ℕ) (empty m : Option ℕ)
    → Emptied slots (index + 1) (empty_slot empty slot index) m
    → Emptied (slot ∷ slots) index empty m
unfolding empty_slot
Emptied-cons slot slots index (some k) m h = h
Emptied-cons slot slots index none m h = elim (ℕ_discrete slot.peer_id 0) [
  | yes e ↦
      let now : empty_slot none slot index ≡ some index = ground (arith, e) in
      let kept : m ≡ some index = subst (λ o. Emptied slots (index + 1) o m) now h in
      inr (0, kept ∙ ap some (omega arith), ((slot, refl, e), λ j g. omega arith))
  | no other ↦
      let now : empty_slot none slot index ≡ none = ground (arith, other) in
      later other (subst (λ o. Emptied slots (index + 1) o m) now h)
]
  where
    later :
        slot.peer_id ≢ 0 → Emptied slots (index + 1) none m → Emptied (slot ∷ slots) index none m
    later other (inl (e, free)) = inl (e, NoPeer-cons slot slots 0 other free)
    later other (inr (i, e, h)) =
        inr (suc i, e ∙ ap some (omega arith), IsPeerAt-cons slot slots i 0 other h)

-- The search for a peer and for an empty slot.
pub search_slots_lem :
    (peer : ℕ) (slots : List HostPeerSlot) (index : ℕ) (empty : Option ℕ)
    → ((i : ℕ) × (search_slots peer slots index empty ≡ at_peer (index + i))
        × IsPeerAt slots i peer)
      ⊎ ((m : Option ℕ) × (search_slots peer slots index empty ≡ no_peer m)
          × NoPeer slots peer
          × Emptied slots index empty m)
unfolding search_slots
search_slots_lem peer [] index empty = inr (empty, refl, NoPeer-nil peer, ends empty)
  where
    ends : (o : Option ℕ) → Emptied [] index o o
    ends none = inl (refl, NoPeer-nil 0)
    ends (some k) = refl
search_slots_lem peer (slot ∷ slots) index empty = elim (ℕ_discrete slot.peer_id peer) [
  | yes e ↦ inl (0, ground (arith, e), ((slot, refl, e), λ j h. omega arith))
  | no other ↦
      let skip : search_slots peer (slot ∷ slots) index empty
          ≡ search_slots peer slots (index + 1) (empty_slot empty slot index) =
        ground (arith, other) in
      elim (search_slots_lem peer slots (index + 1) (empty_slot empty slot index)) [
        | inl (i, e, h) ↦
            inl
              (suc i, skip ∙ e ∙ ap at_peer (omega arith), IsPeerAt-cons slot slots i peer other h)
        | inr (m, e, free, kept) ↦ inr (
          m,
          skip ∙ e,
          NoPeer-cons slot slots peer other free,
          Emptied-cons slot slots index empty m kept,
        )
      ]
]

pub find_host_peer_slot_iff :
    (peer : ℕ) (slots : List HostPeerSlot)
    → peer ≢ 0
    → find_host_peer_slot peer slots ≡ find_slot peer slots 0
unfolding find_host_peer_slot
find_host_peer_slot_iff peer slots h = ground (arith, h)

pub find_host_peer_slot_zero :
    (peer : ℕ) (slots : List HostPeerSlot) → peer ≡ 0 → find_host_peer_slot peer slots ≡ none
unfolding find_host_peer_slot
find_host_peer_slot_zero peer slots h = ground (arith, h)

-- A claim that succeeds: the slot was the peer's, or free while no slot was the peer's.
abbrev pub Claimed : ℕ → List HostPeerSlot → List HostPeerSlot × Option ℕ → Type 0
Claimed peer slots result =
    (i : ℕ) × (s : HostPeerSlot) × (f : HostPeerSlot → HostPeerSlot) × (result
      ≡ (modify i f slots, some i))
    × (get_elem? slots i ≡ some s)
    × ((s.peer_id ≡ peer) ⊎ (s.peer_id ≡ 0))
    × ((f s).peer_id ≡ peer)
    × ((j : ℕ) → HasPeer slots j peer → j ≢ i → i < j)
    × ((s.peer_id ≡ 0) → (s.peer_id ≢ peer) → NoPeer slots peer)

pub claim_cases :
    (peer tick : ℕ) (slots : List HostPeerSlot)
    → ((claim_host_peer_slot peer tick slots ≡ (slots, none)) × NoPeer slots peer × NoPeer slots 0)
      ⊎ Claimed peer slots (claim_host_peer_slot peer tick slots)
unfolding claim_host_peer_slot claim_found
claim_cases peer tick slots = elim (search_slots_lem peer slots 0 none) [
  | inl (i, e, ((s, f, g), least)) ↦ inr (
    i,
    s,
    renew_slot tick,
    found (e ∙ ap at_peer (omega arith)),
    f,
    inl g,
    kept s g,
    (λ j h other. omega (arith, least j h)),
    λ z other. absurd (other g),
  )
  | inr (m, e, free, inl (k, full)) ↦ inl (found (e ∙ ap no_peer k), free, full)
  | inr (m, e, free, inr (i, k, ((s, f, g), least))) ↦ inr (
    i,
    s,
    occupy_slot peer tick,
    found (e ∙ ap no_peer (k ∙ ap some (omega arith))),
    f,
    inr g,
    taken s,
    (λ j h other. absurd (free j h)),
    λ z other. free,
  )
]
  where
    found :
        {r : SlotSearch}
        → search_slots peer slots 0 none ≡ r
        → claim_host_peer_slot peer tick slots ≡ claim_found peer tick slots r
    found e = ap (claim_found peer tick slots) e

    kept : (s : HostPeerSlot) → s.peer_id ≡ peer → (renew_slot tick s).peer_id ≡ peer
    kept s g = g

    taken : (s : HostPeerSlot) → (occupy_slot peer tick s).peer_id ≡ peer
    taken s = refl

-- After a claim for a peer other than 0 that returns a slot, `find_host_peer_slot` finds that
-- slot for the peer, and for every other peer what it found before.
pub claim_host_peer_slot-find :
    (peer tick : ℕ) (slots after : List HostPeerSlot) (i : ℕ)
    → peer ≢ 0
    → claim_host_peer_slot peer tick slots ≡ (after, some i)
    → (find_host_peer_slot peer after ≡ some i)
      × ((q : ℕ) → q ≢ peer → find_host_peer_slot q after ≡ find_host_peer_slot q slots)
claim_host_peer_slot-find peer tick slots after i h e = elim (claim_cases peer tick slots) [
  | inl (g, free, full) ↦ absurd cc
  | inr (k, s, f, run, get, was, now, first_one, _) ↦
      let same : modify k f slots ≡ after = cc in
      let index : k ≡ i = cc in
      rw (sym same, sym index)
        (find_self k s f get now first_one, λ q other. find_other k s f get was now q other)
]
  where
    find_self :
        (k : ℕ) (s : HostPeerSlot) (f : HostPeerSlot → HostPeerSlot)
        → get_elem? slots k ≡ some s
        → (f s).peer_id ≡ peer
        → ((j : ℕ) → HasPeer slots j peer → j ≢ k → k < j)
        → find_host_peer_slot peer (modify k f slots) ≡ some k
    find_self k s f get now first_one =
        find_host_peer_slot_iff peer (modify k f slots) h
        ∙ find_slot-peer peer (modify k f slots) 0 k
            ((HasPeer-modify_self f slots k peer s get).1 now, λ j g. least j g)
        ∙ ap some (omega arith)
      where
        least : (j : ℕ) → HasPeer (modify k f slots) j peer → k ≤ j
        least j g = elim (ℕ_discrete j k) [
          | yes same ↦ omega (arith, same)
          | no other ↦
              omega (arith, first_one j ((HasPeer-modify_other f slots k j peer other).0 g) other)
        ]

    find_other :
        (k : ℕ) (s : HostPeerSlot) (f : HostPeerSlot → HostPeerSlot)
        → get_elem? slots k ≡ some s
        → (s.peer_id ≡ peer) ⊎ (s.peer_id ≡ 0)
        → (f s).peer_id ≡ peer
        → (q : ℕ) → q ≢ peer
        → find_host_peer_slot q (modify k f slots) ≡ find_host_peer_slot q slots
    find_other k s f get was now q other = elim (ℕ_discrete q 0) [
      | yes z ↦ find_host_peer_slot_zero q _ z ∙ sym (find_host_peer_slot_zero q slots z)
      | no nonzero ↦
          find_host_peer_slot_iff q _ nonzero
          ∙ find_slot-same q (modify k f slots) slots (
              HasPeer-modify f slots k q s get (ground (arith, was, other, nonzero))
                (omega (arith, now, other)))
          ∙ sym (find_host_peer_slot_iff q slots nonzero)
    ]

pub claim_host_peer_slot-full :
    (peer tick : ℕ) (slots : List HostPeerSlot)
    → (claim_host_peer_slot peer tick slots ≡ (slots, none)) ↔ (NoPeer slots peer × NoPeer slots 0)
claim_host_peer_slot-full peer tick slots = elim (claim_cases peer tick slots) [
  | inl (g, free, full) ↦ (λ e. (free, full), λ h. g)
  | inr (k, s, f, run, get, was, now, _, _) ↦ (λ e. absurd cc, λ h. used s k get was h)
]
  where
    used :
        (s : HostPeerSlot) (k : ℕ)
        → get_elem? slots k ≡ some s
        → (s.peer_id ≡ peer) ⊎ (s.peer_id ≡ 0)
        → NoPeer slots peer × NoPeer slots 0
        → claim_host_peer_slot peer tick slots ≡ (slots, none)
    used s k get (inl mine) h = absurd (h.0 k (s, get, mine))
    used s k get (inr free) h = absurd (h.1 k (s, get, free))
