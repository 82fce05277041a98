-- ===== src/Realms/Tests.antt =====
-- Two slots, a queue with one event, and a packet of the size that the game sends.
use darktide_mods.Base.{
  ℕ, zero, suc, ◌≡◌, ◌≢◌, refl, sym, ap, ◌∙◌, arith, true, List, [], ◌∷◌, ◌++◌, none, some, length,
  replicate, codes, ok, fault, out_of_bounds,
}
use darktide_mods.Realms.Slots.{
  HostPeerSlot, free_slot, modify, claim_host_peer_slot, find_host_peer_slot, clear_host_peer_slot,
  adopted,
}
use darktide_mods.Realms.Slots.Claim.{claim_host_peer_slot-find}
use darktide_mods.Realms.Slots.Distinct.{AreDistinct, clear_host_peer_slot-find}
use darktide_mods.Realms.Events.{RuntimeEvent, poll_runtime_event, runtime_event_size}
use darktide_mods.Realms.Events.Account.{
  IsAccount, IsBooked, nothing, kept_last, left_out, poll_runtime_event-Account,
}
use darktide_mods.Realms.Packet.{build_connect_reply_packet}
use darktide_mods.Realms.Packet.Reply.{
  IsReply, build_connect_reply_packet-Reply, build_connect_reply_packet-out_of_bounds,
}

abbrev peer_slot : HostPeerSlot
peer_slot = record free_slot { peer_id = 7; channel_id = 3; state = adopted }

abbrev two_slots : List HostPeerSlot
two_slots = free_slot ∷ peer_slot ∷ []

claim_host_peer_slot_example :
    (find_host_peer_slot 9
        (record free_slot { peer_id = 9; last_activity_tick = 50 } ∷ peer_slot ∷ [])
      ≡ some 0)
    × ((q : ℕ)
        → q ≢ 9
        → find_host_peer_slot q
            (record free_slot { peer_id = 9; last_activity_tick = 50 } ∷ peer_slot ∷ [])
          ≡ find_host_peer_slot q two_slots)
unfolding claim_host_peer_slot
claim_host_peer_slot_example =
    claim_host_peer_slot-find 9 50 two_slots
      (record free_slot { peer_id = 9; last_activity_tick = 50 } ∷ peer_slot ∷ []) 0 (omega arith)
      refl

two_slots-Distinct : AreDistinct two_slots
two_slots-Distinct peer zero zero nonzero h g = refl
two_slots-Distinct peer zero (suc j) nonzero (s, e, f) g =
    let free : free_slot ≡ s = cc in
    absurd (nonzero (sym f ∙ ap (λ (x : HostPeerSlot). x.peer_id) (sym free)))
two_slots-Distinct peer (suc i) zero nonzero h (s, e, f) =
    let free : free_slot ≡ s = cc in
    absurd (nonzero (sym f ∙ ap (λ (x : HostPeerSlot). x.peer_id) (sym free)))
two_slots-Distinct peer (suc zero) (suc zero) nonzero h g = refl
two_slots-Distinct peer (suc zero) (suc (suc j)) nonzero h (s, e, f) = absurd cc
two_slots-Distinct peer (suc (suc i)) (suc j) nonzero (s, e, f) g = absurd cc

clear_host_peer_slot_example :
    (find_host_peer_slot 7 (modify 1 clear_host_peer_slot two_slots) ≡ none)
    × ((q : ℕ)
        → q ≢ 7
        → find_host_peer_slot q (modify 1 clear_host_peer_slot two_slots)
          ≡ find_host_peer_slot q two_slots)
    × AreDistinct (modify 1 clear_host_peer_slot two_slots)
unfolding find_host_peer_slot
clear_host_peer_slot_example = clear_host_peer_slot-find 7 1 two_slots two_slots-Distinct refl

abbrev joined : RuntimeEvent
joined = record {
  event_size = runtime_event_size;
  type = 3;
  peer_text = codes "000000000000000a";
  channel_id = 3;
  code = 0;
  message = codes "joined";
}

one_event-Account :
    IsAccount record { events = joined ∷ []; dropped = 2 } (joined ∷ joined ∷ joined ∷ []) [] 0
one_event-Account = record {
  in_order = left_out joined (left_out joined (kept_last joined nothing));
  counted = refl;
  bounded = omega arith;
}

poll_runtime_event_example :
    IsBooked
      (poll_runtime_event
        (some record { writable = true; struct_size = runtime_event_size })
        (joined ∷ [])
        []
        record { events = joined ∷ []; dropped = 2 })
      (joined ∷ joined ∷ joined ∷ [] ++ joined ∷ [] ++ [])
      []
      0
poll_runtime_event_example =
    poll_runtime_event-Account (some record { writable = true; struct_size = runtime_event_size })
      (joined ∷ []) [] record { events = joined ∷ []; dropped = 2 } (joined ∷ joined ∷ joined ∷ [])
      [] 0 one_event-Account

build_connect_reply_packet_example :
    (packet : List ℕ) × (build_connect_reply_packet 5 6 (some (replicate 37 48)) 69
      ≡ ok (some (packet, 62)))
    × (length packet ≡ 69)
    × IsReply 5 6 (replicate 37 48) packet
build_connect_reply_packet_example =
    build_connect_reply_packet-Reply 5 6 (replicate 37 48) 69 refl (omega arith) (omega arith)

build_connect_reply_packet_overrun :
    build_connect_reply_packet 5 6 (some (replicate 37 48)) 20 ≡ fault out_of_bounds
build_connect_reply_packet_overrun =
    build_connect_reply_packet-out_of_bounds 5 6 (replicate 37 48) 20 refl (omega arith)
      (omega arith)
