-- ===== src/Realms/Slots/Finds.antt =====
-- What `find_host_peer_slot` finds before and after a slot is claimed or cleared.
use darktide_mods.Base.{
  ℕ, zero, suc, ◌+◌, ◌≤◌, ◌≡◌, ◌≢◌, ◌⊎◌, ◌↔◌, refl, sym, ap, subst, ◌∙◌, inl, inr, arith, none,
  some, List, [], ◌∷◌, get_elem?, ℕ_discrete,
}
use darktide_mods.Realms.Slots.{HostPeerSlot, modify, find_slot}

-- The slot of an index is the peer's.
abbrev pub HasPeer : List HostPeerSlot → ℕ → ℕ → Type 0
HasPeer slots i peer = (s : HostPeerSlot) × (get_elem? slots i ≡ some s) × (s.peer_id ≡ peer)

-- None of the slots is the peer's.
abbrev pub NoPeer : List HostPeerSlot → ℕ → Type 0
NoPeer slots peer = (i : ℕ) → ¬ HasPeer slots i peer

-- It is the first such slot.
abbrev pub IsPeerAt : List HostPeerSlot → ℕ → ℕ → Type 0
IsPeerAt slots i peer = HasPeer slots i peer × ((j : ℕ) → HasPeer slots j peer → i ≤ j)

-- A slot before others.
pub NoPeer-cons :
    (slot : HostPeerSlot) (slots : List HostPeerSlot) (peer : ℕ)
    → slot.peer_id ≢ peer
    → NoPeer slots peer
    → NoPeer (slot ∷ slots) peer
NoPeer-cons slot slots peer other free zero (s, e, f) =
    let same : slot ≡ s = cc in other (ap (λ (x : HostPeerSlot). x.peer_id) same ∙ f)
NoPeer-cons slot slots peer other free (suc i) h = free i h

pub IsPeerAt-cons :
    (slot : HostPeerSlot) (slots : List HostPeerSlot) (i peer : ℕ)
    → slot.peer_id ≢ peer
    → IsPeerAt slots i peer
    → IsPeerAt (slot ∷ slots) (suc i) peer
IsPeerAt-cons slot slots i peer other (h, least) = (h, later)
  where
    later : (j : ℕ) → HasPeer (slot ∷ slots) j peer → suc i ≤ j
    later zero (s, e, f) =
        let same : slot ≡ s = cc in absurd (other (ap (λ (x : HostPeerSlot). x.peer_id) same ∙ f))
    later (suc j) g = omega (arith, least j g)

pub NoPeer-nil : (peer : ℕ) → NoPeer [] peer
NoPeer-nil peer i (s, e, f) = absurd cc

-- A peer has a first slot, or none.
pub first_peer :
    (slots : List HostPeerSlot) (peer : ℕ) → NoPeer slots peer ⊎ ((i : ℕ) × IsPeerAt slots i peer)
first_peer [] peer = inl (NoPeer-nil peer)
first_peer (slot ∷ slots) peer = elim (ℕ_discrete slot.peer_id peer) [
  | yes e ↦ inr (0, ((slot, refl, e), λ j h. omega arith))
  | no other ↦ elim (first_peer slots peer) [
    | inl free ↦ inl (NoPeer-cons slot slots peer other free)
    | inr (i, h) ↦ inr (suc i, IsPeerAt-cons slot slots i peer other h)
  ]
]

uncons_peer :
    (slot : HostPeerSlot) (slots : List HostPeerSlot) (peer i : ℕ)
    → IsPeerAt (slot ∷ slots) (suc i) peer
    → slot.peer_id ≢ peer × IsPeerAt slots i peer
uncons_peer slot slots peer i (h, least) = (
  λ e. absurd (omega (arith, least 0 (slot, refl, e))),
  (h, λ j g. omega (arith, least (suc j) g)),
)

pub find_slot-peer :
    (peer : ℕ) (slots : List HostPeerSlot) (index i : ℕ)
    → IsPeerAt slots i peer
    → find_slot peer slots index ≡ some (index + i)
unfolding find_slot
find_slot-peer peer [] index i ((s, e, f), least) = absurd cc
find_slot-peer peer (slot ∷ slots) index zero ((s, e, f), least) =
    let same : slot ≡ s = cc in
    let mine : slot.peer_id ≡ peer = ap (λ (x : HostPeerSlot). x.peer_id) same ∙ f in
    ground (arith, mine)
find_slot-peer peer (slot ∷ slots) index (suc i) h =
    let (other, rest) = uncons_peer slot slots peer i h in
    ground (arith, other, find_slot-peer peer slots (index + 1) i rest)

pub find_slot-none :
    (peer : ℕ) (slots : List HostPeerSlot) (index : ℕ)
    → NoPeer slots peer
    → find_slot peer slots index ≡ none
unfolding find_slot
find_slot-none peer [] index free = refl
find_slot-none peer (slot ∷ slots) index free =
    let other : slot.peer_id ≢ peer = λ e. free 0 (slot, refl, e) in
    ground (arith, other, find_slot-none peer slots (index + 1) (λ i h. free (suc i) h))

-- The search depends on nothing but the peers of the slots.
pub find_slot-same :
    (peer : ℕ) (slots others : List HostPeerSlot)
    → ((i : ℕ) → HasPeer slots i peer ↔ HasPeer others i peer)
    → find_slot peer slots 0 ≡ find_slot peer others 0
find_slot-same peer slots others same = elim (first_peer slots peer) [
  | inl free ↦
      find_slot-none peer slots 0 free
      ∙ sym (find_slot-none peer others 0 (λ i h. free i ((same i).1 h)))
  | inr (i, (h, least)) ↦
      find_slot-peer peer slots 0 i (h, least)
      ∙ sym (find_slot-peer peer others 0 i ((same i).0 h, λ j g. least j ((same j).1 g)))
]

-- A slot that changes.
module _ (f : HostPeerSlot → HostPeerSlot) where
  get_elem?-modify_self :
      (slots : List HostPeerSlot) (i : ℕ) (s : HostPeerSlot)
      → get_elem? slots i ≡ some s
      → get_elem? (modify i f slots) i ≡ some (f s)
  get_elem?-modify_self [] i s e = absurd cc
  get_elem?-modify_self (slot ∷ slots) zero s e =
      let same : slot ≡ s = cc in ap (λ x. some (f x)) same
  get_elem?-modify_self (slot ∷ slots) (suc i) s e = get_elem?-modify_self slots i s e

  get_elem?-modify_other :
      (slots : List HostPeerSlot) (i j : ℕ)
      → j ≢ i
      → get_elem? (modify i f slots) j ≡ get_elem? slots j
  get_elem?-modify_other [] i j other = refl
  get_elem?-modify_other (slot ∷ slots) zero zero other = absurd (other refl)
  get_elem?-modify_other (slot ∷ slots) zero (suc j) other = refl
  get_elem?-modify_other (slot ∷ slots) (suc i) zero other = refl
  get_elem?-modify_other (slot ∷ slots) (suc i) (suc j) other =
      get_elem?-modify_other slots i j (λ e. other (ap suc e))

  pub HasPeer-modify_other :
      (slots : List HostPeerSlot) (i j peer : ℕ)
      → j ≢ i
      → HasPeer (modify i f slots) j peer ↔ HasPeer slots j peer
  HasPeer-modify_other slots i j peer other =
      let e = get_elem?-modify_other slots i j other in
      (λ (s, g, h). (s, sym e ∙ g, h), λ (s, g, h). (s, e ∙ g, h))

  pub HasPeer-modify_self :
      (slots : List HostPeerSlot) (i peer : ℕ) (s : HostPeerSlot)
      → get_elem? slots i ≡ some s
      → HasPeer (modify i f slots) i peer ↔ ((f s).peer_id ≡ peer)
  HasPeer-modify_self slots i peer s e =
      let g = get_elem?-modify_self slots i s e in
      (
        λ (t, h, k). let same : f s ≡ t = cc in ap (λ (x : HostPeerSlot). x.peer_id) same ∙ k,
        λ k. (f s, g, k),
      )

  -- A peer that the slot is of neither before nor after.
  pub HasPeer-modify :
      (slots : List HostPeerSlot) (i peer : ℕ) (s : HostPeerSlot)
      → get_elem? slots i ≡ some s
      → s.peer_id ≢ peer
      → (f s).peer_id ≢ peer
      → (j : ℕ) → HasPeer (modify i f slots) j peer ↔ HasPeer slots j peer
  HasPeer-modify slots i peer s e before after j = elim (ℕ_discrete j i) [
    | no other ↦ HasPeer-modify_other slots i j peer other
    | yes same ↦
        subst (λ k. HasPeer (modify i f slots) k peer ↔ HasPeer slots k peer) (sym same)
          (
            λ h. absurd (after ((HasPeer-modify_self slots i peer s e).0 h)),
            λ (t, g, k).
                let alike : s ≡ t = cc in
                absurd (before (ap (λ (x : HostPeerSlot). x.peer_id) alike ∙ k)),
          )
  ]
