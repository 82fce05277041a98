-- ===== src/Realms/Slots.antt =====
-- realms_protocol.cpp: the slots of the peers of the host, `g_host_peer_slots`. A slot is named by
-- its index; the time is an argument.
pub mod Finds
pub mod Claim
pub mod Distinct
use darktide_mods.Base.{
  ℕ, zero, suc, ◌+◌, Bool, true, false, not, ◌&&◌, Option, none, some, List, [], ◌∷◌, if◌then◌else◌,
  ◌==◌, replicate,
}

pub data HostPeerState : Type 0 where
  pending : HostPeerState
  adopted : HostPeerState
  released : HostPeerState

pub record HostPeerSlot : Type 0 where
  pub peer_id : ℕ
  pub last_activity_tick : ℕ
  pub peer_listener_token : ℕ
  pub channel_listener_token : ℕ
  pub channel_id : ℕ
  pub remote_channel_id : ℕ
  pub state : HostPeerState
  pub peer_listener_registered : Bool
  pub channel_listener_registered : Bool

-- A change of one element of an array.
abbrev pub modify {ℓ} : {A : Type ℓ} → ℕ → (A → A) → List A → List A
modify i f [] = []
modify zero f (x ∷ xs) = f x ∷ xs
modify (suc i) f (x ∷ xs) = x ∷ modify i f xs

-- The loop of `find_host_peer_slot`.
unfoldable pub find_slot : ℕ → List HostPeerSlot → ℕ → Option ℕ
find_slot peer_id [] index = none
find_slot peer_id (slot ∷ slots) index =
    if slot.peer_id == peer_id then some index else find_slot peer_id slots (index + 1)

unfoldable pub find_host_peer_slot : ℕ → List HostPeerSlot → Option ℕ
unfolding find_slot
find_host_peer_slot peer_id slots = if peer_id == 0 then none else find_slot peer_id slots 0

-- How the loop of `claim_host_peer_slot` ends: at the slot of the peer, or with `empty_slot`.
pub data SlotSearch : Type 0 where
  at_peer : ℕ → SlotSearch
  no_peer : Option ℕ → SlotSearch

unfoldable pub empty_slot : Option ℕ → HostPeerSlot → ℕ → Option ℕ
empty_slot none slot index = if slot.peer_id == 0 then some index else none
empty_slot (some i) slot index = some i

unfoldable pub search_slots : ℕ → List HostPeerSlot → ℕ → Option ℕ → SlotSearch
unfolding empty_slot
search_slots peer_id [] index empty = no_peer empty
search_slots peer_id (slot ∷ slots) index empty =
    if slot.peer_id == peer_id
    then at_peer index
    else search_slots peer_id slots (index + 1) (empty_slot empty slot index)

-- `compare_exchange_strong` from Released to Pending.
unfoldable pub exchange_released : HostPeerState → HostPeerState
exchange_released pending = pending
exchange_released adopted = adopted
exchange_released released = pending

unfoldable pub renew_slot : ℕ → HostPeerSlot → HostPeerSlot
unfolding exchange_released
renew_slot tick slot = record slot {
  last_activity_tick = tick;
  state = exchange_released slot.state;
}

unfoldable pub occupy_slot : ℕ → ℕ → HostPeerSlot → HostPeerSlot
occupy_slot peer_id tick slot = record slot {
  last_activity_tick = tick;
  state = pending;
  peer_id = peer_id;
}

-- The slots after the search, and the slot that is returned.
unfoldable pub claim_found : ℕ → ℕ → List HostPeerSlot → SlotSearch → List HostPeerSlot × Option ℕ
unfolding renew_slot occupy_slot
claim_found peer_id tick slots (at_peer i) = (modify i (renew_slot tick) slots, some i)
claim_found peer_id tick slots (no_peer none) = (slots, none)
claim_found peer_id tick slots (no_peer (some i)) =
    (modify i (occupy_slot peer_id tick) slots, some i)

unfoldable pub claim_host_peer_slot : ℕ → ℕ → List HostPeerSlot → List HostPeerSlot × Option ℕ
unfolding search_slots claim_found
claim_host_peer_slot peer_id tick slots =
    claim_found peer_id tick slots (search_slots peer_id slots 0 none)

abbrev pub free_slot : HostPeerSlot
free_slot = record {
  peer_id = 0;
  last_activity_tick = 0;
  peer_listener_token = 0;
  channel_listener_token = 0;
  channel_id = 0;
  remote_channel_id = 0;
  state = pending;
  peer_listener_registered = false;
  channel_listener_registered = false;
}

unfoldable pub clear_host_peer_slot : HostPeerSlot → HostPeerSlot
clear_host_peer_slot slot = free_slot

abbrev pub maximum_remote_peers : ℕ
maximum_remote_peers = 23

-- The array at the start.
abbrev pub host_peer_slots : List HostPeerSlot
host_peer_slots = replicate maximum_remote_peers free_slot
