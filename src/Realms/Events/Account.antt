-- ===== src/Realms/Events/Account.antt =====
-- Every event that is pushed is polled, queued or counted, and the order is kept.
use darktide_mods.Base.{
  ℕ, ◌+◌, ◌%◌, ◌^◌, ◌≤◌, ◌≡◌, sym, subst, arith, Bool, true, false, Bool-cases, Option, none, some,
  List, [], ◌∷◌, ◌++◌, append-nil, append_assoc, length, length-append, if◌then◌else◌, leb, ◌==◌,
  inl, inr, not, ◌&&◌,
}
use darktide_mods.Realms.Events.{
  RuntimeEvent, EventQueue, maximum_queued_events, push_runtime_event, push_events, EventOutput,
  PollResult, poll_failed, no_event, overflowed, polled, pop_event, take_event, poll_runtime_event,
  not_writable, wrong_size, runtime_event_size,
}

-- A part of a list, in its order.
pub data IsKept : List RuntimeEvent → List RuntimeEvent → Type 0 where
  nothing : IsKept [] []
  kept_last :
      {xs ys : List RuntimeEvent} (e : RuntimeEvent)
      → IsKept xs ys
      → IsKept (xs ++ e ∷ []) (ys ++ e ∷ [])
  left_out :
      {xs ys : List RuntimeEvent} (e : RuntimeEvent) → IsKept xs ys → IsKept xs (ys ++ e ∷ [])

-- The books of a queue: what was pushed, what was polled, and the drops that were reported.
pub record IsAccount (q : EventQueue) (pushed delivered : List RuntimeEvent) (reported : ℕ)
    : Type 0 where
  pub in_order : IsKept (delivered ++ q.events) pushed
  pub counted :
      length pushed % 2 ^ 32 ≡ (length delivered + length q.events + reported + q.dropped) % 2 ^ 32
  pub bounded : length q.events ≤ maximum_queued_events

abbrev pub delivered_by : PollResult → List RuntimeEvent
delivered_by (poll_failed e) = []
delivered_by no_event = []
delivered_by (overflowed n) = []
delivered_by (polled event) = event ∷ []

abbrev pub reported_by : PollResult → ℕ
reported_by (poll_failed e) = 0
reported_by no_event = 0
reported_by (overflowed n) = n
reported_by (polled event) = 0

push-Account :
    (q : EventQueue) (pushed delivered : List RuntimeEvent) (reported : ℕ) (event : RuntimeEvent)
    → IsAccount q pushed delivered reported
    → IsAccount (push_runtime_event event q) (pushed ++ event ∷ []) delivered reported
unfolding push_runtime_event
push-Account q pushed delivered reported event v =
    elim (Bool-cases (leb maximum_queued_events (length q.events))) [
      | inl full ↦ rw full record {
        in_order = left_out event v.in_order;
        counted = omega (arith, v.counted, length-append pushed (event ∷ []));
        bounded = v.bounded;
      }
      | inr room ↦ rw room record {
        in_order =
            subst (λ xs. IsKept xs (pushed ++ event ∷ []))
              (append_assoc delivered q.events (event ∷ [])) (kept_last event v.in_order);
        counted = omega (
          arith,
          v.counted,
          length-append pushed (event ∷ []),
          length-append q.events (event ∷ []),
        );
        bounded = ground (arith, room, length-append q.events (event ∷ []));
      }
    ]

push_events-Account :
    (events : List RuntimeEvent) (q : EventQueue) (pushed delivered : List RuntimeEvent)
    (reported : ℕ)
    → IsAccount q pushed delivered reported
    → IsAccount (push_events events q) (pushed ++ events) delivered reported
unfolding push_events
push_events-Account [] q pushed delivered reported v =
    subst (λ xs. IsAccount q xs delivered reported) (sym (append-nil pushed)) v
push_events-Account (event ∷ events) q pushed delivered reported v =
    subst (λ xs. IsAccount (push_events events (push_runtime_event event q)) xs delivered reported)
      (append_assoc pushed (event ∷ []) events)
      (push_events-Account events (push_runtime_event event q) (pushed ++ event ∷ []) delivered
        reported (push-Account q pushed delivered reported event v))

-- What a poll gives is booked.
abbrev pub IsBooked : PollResult × EventQueue → List RuntimeEvent → List RuntimeEvent → ℕ → Type 0
IsBooked (result, q) pushed delivered reported =
    IsAccount q pushed (delivered ++ delivered_by result) (reported + reported_by result)

plain :
    (q : EventQueue) (pushed delivered : List RuntimeEvent) (reported : ℕ)
    → IsAccount q pushed delivered reported
    → IsAccount q pushed (delivered ++ []) (reported + 0)
plain q pushed delivered reported v = record {
  in_order = subst (λ xs. IsKept (xs ++ q.events) pushed) (sym (append-nil delivered)) v.in_order;
  counted = omega (arith, v.counted, length-append {A = RuntimeEvent} delivered []);
  bounded = v.bounded;
}

pop-Account :
    (q : EventQueue) (pushed delivered : List RuntimeEvent) (reported : ℕ)
    → IsAccount q pushed delivered reported
    → IsBooked (pop_event q) pushed delivered reported
unfolding pop_event
pop-Account q pushed delivered reported v = front q.events q.dropped v
  where
    front :
        (events : List RuntimeEvent) (dropped : ℕ)
        → IsAccount record { events = events; dropped = dropped } pushed delivered reported
        → IsBooked
            (pop_event record { events = events; dropped = dropped })
            pushed
            delivered
            reported
    front [] dropped w = plain _ pushed delivered reported w
    front (event ∷ events) dropped w = record {
      in_order =
          subst (λ xs. IsKept xs pushed) (sym (append_assoc delivered (event ∷ []) events))
            w.in_order;
      counted = omega (arith, w.counted, length-append delivered (event ∷ []));
      bounded = omega (arith, w.bounded);
    }

take-Account :
    (events : List RuntimeEvent) (q : EventQueue) (pushed delivered : List RuntimeEvent)
    (reported : ℕ)
    → IsAccount q pushed delivered reported
    → IsBooked (take_event events q) (pushed ++ events) delivered reported
unfolding take_event
take-Account events q pushed delivered reported v = elim (Bool-cases (q.dropped == 0)) [
  | inl none_dropped ↦ rw none_dropped (
      pop-Account _ (pushed ++ events) delivered reported (
        push_events-Account events (record q { dropped = 0 }) pushed delivered reported
          (none_lost none_dropped)))
  | inr lost ↦ rw lost (
      push_events-Account events (record q { dropped = 0 }) pushed (delivered ++ [])
        (reported + q.dropped) told)
]
  where
    none_lost :
        (q.dropped == 0) ≡ true → IsAccount (record q { dropped = 0 }) pushed delivered reported
    none_lost e = record {
      in_order = v.in_order;
      counted = ground (arith, v.counted, e);
      bounded = v.bounded;
    }

    told : IsAccount (record q { dropped = 0 }) pushed (delivered ++ []) (reported + q.dropped)
    told = record {
      in_order =
          subst (λ xs. IsKept (xs ++ q.events) pushed) (sym (append-nil delivered)) v.in_order;
      counted = omega (arith, v.counted, length-append {A = RuntimeEvent} delivered []);
      bounded = v.bounded;
    }

later-Account :
    (before after : List RuntimeEvent) (q : EventQueue) (pushed delivered : List RuntimeEvent)
    (reported : ℕ)
    → IsAccount q pushed delivered reported
    → IsAccount
        (push_events after (push_events before q))
        (pushed ++ before ++ after)
        (delivered ++ [])
        (reported + 0)
later-Account before after q pushed delivered reported v = plain _ _ delivered reported (
    push_events-Account after (push_events before q) (pushed ++ before) delivered reported
      (push_events-Account before q pushed delivered reported v))

-- The early returns of a poll, and its end.
branch-Booked :
    (a b c : Bool) (w x y z : PollResult × EventQueue) (pushed delivered : List RuntimeEvent)
    (reported : ℕ)
    → IsBooked w pushed delivered reported
    → IsBooked x pushed delivered reported
    → IsBooked y pushed delivered reported
    → IsBooked z pushed delivered reported
    → IsBooked (if a then w else if b then x else if c then y else z) pushed delivered reported
branch-Booked true b c w x y z pushed delivered reported hw hx hy hz = hw
branch-Booked false true c w x y z pushed delivered reported hw hx hy hz = hx
branch-Booked false false true w x y z pushed delivered reported hw hx hy hz = hy
branch-Booked false false false w x y z pushed delivered reported hw hx hy hz = hz

-- If what was polled, followed by what is queued, is a part in order of what was pushed, if the
-- events pushed are as many as those polled, queued, reported as dropped and counted as dropped,
-- modulo 2 ^ 32, and if at most 64 are queued, then the same holds after a poll, with its result
-- booked, whatever the output is, fails or succeeds, and whatever is pushed before, during or
-- after it.
pub poll_runtime_event-Account :
    (output : Option EventOutput) (before after : List RuntimeEvent) (q : EventQueue)
    (pushed delivered : List RuntimeEvent) (reported : ℕ)
    → IsAccount q pushed delivered reported
    → IsBooked
        (poll_runtime_event output before after q)
        (pushed ++ before ++ after)
        delivered
        reported
unfolding poll_runtime_event
poll_runtime_event-Account none before after q pushed delivered reported v =
    later-Account before after q pushed delivered reported v
poll_runtime_event-Account (some output) before after q pushed delivered reported v =
    branch-Booked (length q.events == 0 && q.dropped == 0) (not output.writable)
      (not (output.struct_size == runtime_event_size)) (no_event, later)
      (poll_failed not_writable, later) (poll_failed wrong_size, later)
      (take_event after (push_events before q)) (pushed ++ before ++ after) delivered reported
      booked booked booked
      (take-Account after (push_events before q) (pushed ++ before) delivered reported
        (push_events-Account before q pushed delivered reported v))
  where
    later : EventQueue
    later = push_events after (push_events before q)

    booked :
        IsAccount
          (push_events after (push_events before q))
          (pushed ++ before ++ after)
          (delivered ++ [])
          (reported + 0)
    booked = later-Account before after q pushed delivered reported v
