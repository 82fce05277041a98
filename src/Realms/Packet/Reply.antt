-- ===== src/Realms/Packet/Reply.antt =====
-- The packet of a reply: its fields, and the capacities that it needs.
use darktide_mods.Base.{
  ℕ, zero, suc, ◌+◌, ◌/◌, ◌%◌, ◌^◌, ◌≤◌, ◌<◌, ◌≡◌, refl, ap, ◌∙◌, arith, List, some, [], ◌∷◌,
  length, length-replicate, length-take, take, ok, fault, out_of_bounds, replicate,
}
use darktide_mods.Base.Arrays.{get_or-take}
use darktide_mods.Base.BitAt.{bit}
use darktide_mods.Realms.Packet.{
  append_all, payload_fields, header_fields, size_fields, count_size_bits, copy_bytes, add_payload,
  add_account, build_connect_reply_packet, add_body, wire_address_size,
}
use darktide_mods.Realms.Packet.Append.{bits_at, bits_at-same, IsClear}
use darktide_mods.Realms.Packet.Fields.{
  AreRead, IsWritten, append_all-Written, AreRead-same, AreRead-move, AreRead-bytes, byte_fields,
  field_bits-byte_fields,
}
use darktide_mods.Realms.Packet.Copy.{
  copied, copy_bytes-copied, length-copied, get_or-copied_inside, bits_at-before, bits_at-inside,
  copied-Clear, replicate-Clear,
}

take_all : (xs : List ℕ) (n : ℕ) → length xs ≡ n → take n xs ≡ xs
take_all [] zero e = refl
take_all [] (suc n) e = absurd (omega (arith, e))
take_all (x ∷ xs) zero e = absurd (omega (arith, e))
take_all (x ∷ xs) (suc n) e = ap (λ ys. x ∷ ys) (take_all xs n (omega (arith, e)))

-- The fields of a reply, in bits from its start: the header, the account, the sizes at 400, and the
-- payload at 424.
pub record IsReply (local_peer_id lobby_id : ℕ) (account packet : List ℕ) : Type 0 where
  pub header : AreRead packet 0 (header_fields local_peer_id)
  pub account_bytes : AreRead packet 104 (byte_fields account)
  pub sizes : AreRead packet 400 (size_fields 9 4)
  pub payload_read : AreRead packet 424 (payload_fields lobby_id)

bits_at-taken :
    (payload : List ℕ) (at n : ℕ)
    → at + n ≤ 72
    → bits_at (take 9 payload) at n ≡ bits_at payload at n
bits_at-taken payload at n h =
    bits_at-same n payload (take 9 payload) at (λ j low high.
      ap (λ t. bit t (j % 8)) (get_or-take 9 payload (j / 8) (omega (arith, h, high))))

module _ (lobby_id : ℕ) (payload : List ℕ) (long : length payload ≡ 16) where
  -- The first nine bytes of the payload.
  sent_length : length (take 9 payload) ≡ 9
  sent_length = omega (arith, long, length-take 9 payload)

  module _ (s : List ℕ) (room : 62 ≤ length s) where
    fits : 53 + length (take 9 payload) ≤ length s
    fits = omega (arith, sent_length, room)

    add_payload-copied :
        add_payload payload 9 (some (s, 420)) ≡ ok (some (copied s (take 9 payload) 53 fits, 62))
    unfolding add_payload
    add_payload-copied = rw (copy_bytes-copied s (take 9 payload) 53 fits) (ground (arith, room))

    -- The packet with the payload: what was before it, and its fields.
    payload-kept :
        (at n : ℕ)
        → at + n ≤ 424
        → bits_at (copied s (take 9 payload) 53 fits) at n ≡ bits_at s at n
    payload-kept at n h = bits_at-before s (take 9 payload) 53 fits at n (omega (arith, h))

    payload-Read :
        AreRead payload 0 (payload_fields lobby_id)
        → AreRead (copied s (take 9 payload) 53 fits) 424 (payload_fields lobby_id)
    payload-Read read =
        AreRead-move (payload_fields lobby_id) (take 9 payload) (copied s (take 9 payload) 53 fits)
          424 0
          (λ at n h. bits_at-inside s (take 9 payload) 53 fits n at (omega (arith, h, sent_length)))
          (AreRead-same (payload_fields lobby_id) payload (take 9 payload) 0
            (λ at n h. bits_at-taken payload at n h) read)

module _ (account h : List ℕ) (long : length account ≡ 37) (room : 62 ≤ length h) where
  named : take wire_address_size account ≡ account
  named = take_all account wire_address_size long

  account_fits : 13 + length account ≤ length h
  account_fits = omega (arith, long, room)

  add_account-copied :
      (payload s : List ℕ)
      → length h < 2 ^ 60
      → append_all (size_fields 9 4) (copied h account 13 account_fits) 400 ≡ some (s, 420)
      → add_account (some account) payload 9 4 (some (h, 104))
        ≡ add_payload payload 9 (some (s, 420))
  unfolding add_account
  add_account-copied payload s small e =
      rw (named, copy_bytes-copied h account 13 account_fits)
        (ground (arith, room, small, ap (add_payload payload 9) e))

  account-kept :
      (at n : ℕ) → at + n ≤ 104 → bits_at (copied h account 13 account_fits) at n ≡ bits_at h at n
  account-kept at n low = bits_at-before h account 13 account_fits at n (omega (arith, low))

  account-Read : AreRead (copied h account 13 account_fits) 104 (byte_fields account)
  account-Read = AreRead-bytes account _ 13 (get_or-copied_inside h account 13 account_fits)

  account-Clear : IsClear h 104 → IsClear (copied h account 13 account_fits) 400
  account-Clear clear =
      copied-Clear h account 13 account_fits 400 (omega (arith, long))
        (λ j low. clear j (omega (arith, low)))

past_end :
    (account payload h : List ℕ)
    → length account ≡ 37
    → 13 ≤ length h
    → length h < 37
    → add_account (some account) payload 9 4 (some (h, 104)) ≡ fault out_of_bounds
unfolding add_account copy_bytes
past_end account payload h long low high =
    let wide : length (take 37 account) ≡ 37 = omega (arith, length-take 37 account, long) in
    ground (arith, wide, low, high)

module _ (local_peer_id lobby_id : ℕ) (account : List ℕ) (capacity : ℕ) where
  payload-Written :
      (payload : List ℕ) × (append_all (payload_fields lobby_id) (replicate 16 0) 0
        ≡ some (payload, 72))
      × IsWritten (replicate 16 0) 0 (payload_fields lobby_id) payload
  payload-Written =
      append_all-Written (payload_fields lobby_id) (replicate 16 0) 0
        (omega arith, (omega arith, (omega arith, (omega arith, tt)))) (replicate-Clear 16)
        (omega arith)

  header-Written :
      13 ≤ capacity
      → (h : List ℕ) × (append_all (header_fields local_peer_id) (replicate capacity 0) 0
          ≡ some (h, 104))
        × IsWritten (replicate capacity 0) 0 (header_fields local_peer_id) h
  header-Written room =
      append_all-Written (header_fields local_peer_id) (replicate capacity 0) 0
        (omega arith, (omega arith, (omega arith, tt))) (replicate-Clear capacity)
        (omega (arith, room, length-replicate {A = ℕ} capacity 0))

  -- The call, once the payload and the header are there.
  build-account :
      (payload h : List ℕ)
      → append_all (payload_fields lobby_id) (replicate 16 0) 0 ≡ some (payload, 72)
      → append_all (header_fields local_peer_id) (replicate capacity 0) 0 ≡ some (h, 104)
      → build_connect_reply_packet local_peer_id lobby_id (some account) capacity
        ≡ add_account (some account) payload 9 4 (some (h, 104))
  unfolding build_connect_reply_packet add_body count_size_bits
  build-account payload h e f =
      ap (λ t. add_body (some account) t (append_all (payload_fields lobby_id) (replicate 16 0) 0))
        f
      ∙ ap (add_body (some account) (some (h, 104))) e

  -- With an account of 37 bytes and a capacity of at least 62 bytes, below 2 ^ 60,
  -- `build_connect_reply_packet` succeeds with a packet of 62 bytes in a buffer of the capacity,
  -- from which every field is read back: the header with the local peer, the bytes of the
  -- account, the sizes, and the payload with the lobby.
  pub build_connect_reply_packet-Reply :
      length account ≡ 37
      → 62 ≤ capacity
      → capacity < 2 ^ 60
      → (packet : List ℕ) × (build_connect_reply_packet local_peer_id lobby_id
            (some account)
            capacity
          ≡ ok (some (packet, 62)))
        × (length packet ≡ capacity)
        × IsReply local_peer_id lobby_id account packet
  build_connect_reply_packet-Reply long room small =
      let (payload, run_p, p) = payload-Written in
      let (h, run_h, w) = header-Written (omega (arith, room)) in
      let wide : length h ≡ capacity = w.same_length ∙ length-replicate {A = ℕ} capacity 0 in
      let h_room : 62 ≤ length h = omega (arith, wide, room) in
      let (s, run_s, t) =
        append_all-Written (size_fields 9 4)
          (copied h account 13 (account_fits account h long h_room)) 400
          (omega arith, (omega arith, (omega arith, (omega arith, tt))))
          (account-Clear account h long h_room w.clear_after)
          (omega
            (arith, h_room, length-copied h account 13 (account_fits account h long h_room))) in
      let s_wide : length s ≡ capacity =
        t.same_length ∙ length-copied h account 13 (account_fits account h long h_room) ∙ wide in
      let s_room : 62 ≤ length s = omega (arith, s_wide, room) in
      let p_long : length payload ≡ 16 = p.same_length in
      (
        copied s (take 9 payload) 53 (fits lobby_id payload p_long s s_room),
        build-account payload h run_p run_h
            ∙ add_account-copied account h long h_room payload s (omega (arith, wide, small)) run_s
            ∙ add_payload-copied lobby_id payload p_long s s_room,
        length-copied s (take 9 payload) 53 (fits lobby_id payload p_long s s_room) ∙ s_wide,
        record {
          header =
              AreRead-same (header_fields local_peer_id) h _ 0
                (λ at n low.
                  payload-kept lobby_id payload p_long s s_room at n (omega (arith, low))
                  ∙ t.kept at n (omega (arith, low))
                  ∙ account-kept account h long h_room at n (omega (arith, low)))
                w.read_back;
          account_bytes =
              AreRead-same (byte_fields account) _ _ 104
                (λ at n low.
                  payload-kept lobby_id payload p_long s s_room at n
                    (omega (arith, low, long, field_bits-byte_fields account))
                  ∙ t.kept at n (omega (arith, low, long, field_bits-byte_fields account)))
                (account-Read account h long h_room);
          sizes =
              AreRead-same (size_fields 9 4) s _ 400
                (λ at n low.
                  payload-kept lobby_id payload p_long s s_room at n (omega (arith, low)))
                t.read_back;
          payload_read = payload-Read lobby_id payload p_long s s_room p.read_back;
        },
      )

  -- With an account of 37 bytes and a capacity of 13 to 36 bytes, `build_connect_reply_packet`
  -- copies the account past the end of the packet.
  pub build_connect_reply_packet-out_of_bounds :
      length account ≡ 37
      → 13 ≤ capacity
      → capacity < 37
      → build_connect_reply_packet local_peer_id lobby_id (some account) capacity
        ≡ fault out_of_bounds
  build_connect_reply_packet-out_of_bounds long room small =
      let (payload, run_p, p) = payload-Written in
      let (h, run_h, w) = header-Written room in
      let wide : length h ≡ capacity = w.same_length ∙ length-replicate {A = ℕ} capacity 0 in
      build-account payload h run_p run_h
      ∙ past_end account payload h long (omega (arith, wide, room)) (omega (arith, wide, small))
