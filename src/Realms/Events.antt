-- ===== src/Realms/Events.antt =====
-- realms_events.cpp: the queue of events that the script polls. The sections of the code that hold
-- the lock are steps; what other threads push between two of them is an argument.
pub mod Account
use darktide_mods.Base.{
  ℕ, zero, suc, ◌+◌, ◌-◌, ◌/◌, ◌%◌, ◌^◌, Bool, true, false, not, ◌&&◌, Option, none, some, List, [],
  ◌∷◌, ◌++◌, if◌then◌else◌, ltb, leb, ◌==◌, length, take, codes,
}

-- RealmsRuntimeEvent. The texts are given up to their terminator.
pub record RuntimeEvent : Type 0 where
  pub event_size : ℕ
  pub type : ℕ
  pub peer_text : List ℕ
  pub channel_id : ℕ
  pub code : ℕ
  pub message : List ℕ

-- `sizeof(RealmsRuntimeEvent)`, its capacities, and two codes of include/darktide_realms.h.
abbrev pub runtime_event_size : ℕ
runtime_event_size = 4 + 4 + 17 + 3 + 4 + 4 + 160

abbrev pub message_capacity : ℕ
message_capacity = 160

abbrev pub event_error : ℕ
event_error = 1

abbrev pub error_event_overflow : ℕ
error_event_overflow = 1008

abbrev pub maximum_queued_events : ℕ
maximum_queued_events = 64

-- `snprintf` with "%016llx" and with "%u".
abbrev pub hex_digit : ℕ → ℕ
hex_digit d = if ltb d 10 then 48 + d else 87 + d

unfoldable pub hex_text : ℕ → ℕ → List ℕ
hex_text zero value = []
hex_text (suc n) value = hex_text n (value / 16) ++ hex_digit (value % 16) ∷ []

unfoldable pub decimal_text : ℕ → ℕ → List ℕ
decimal_text zero value = []
decimal_text (suc n) value =
    let before = decimal_text n (value / 10) in
    if value / 10 == 0 then (48 + value % 10) ∷ [] else before ++ (48 + value % 10) ∷ []

unfoldable pub make_event : ℕ → ℕ → ℕ → ℕ → Option (List ℕ) → RuntimeEvent
unfolding hex_text
make_event type code peer_id channel_id message = record {
  event_size = runtime_event_size;
  type = type;
  peer_text = if peer_id == 0 then [] else hex_text 16 peer_id;
  channel_id = channel_id;
  code = code;
  message = elim message [ none ↦ [] | some text ↦ take (message_capacity - 1) text ];
}

-- `g_events` and `g_dropped_event_count`.
pub record EventQueue : Type 0 where
  pub events : List RuntimeEvent
  pub dropped : ℕ

unfoldable pub clear_runtime_events : EventQueue → EventQueue
clear_runtime_events q = record { events = []; dropped = 0 }

-- An event that is made is pushed.
unfoldable pub push_runtime_event : RuntimeEvent → EventQueue → EventQueue
push_runtime_event event q =
    if leb maximum_queued_events (length q.events)
    then record q { dropped = (q.dropped + 1) % 2 ^ 32 }
    else record q { events = q.events ++ event ∷ [] }

unfoldable pub push_events : List RuntimeEvent → EventQueue → EventQueue
unfolding push_runtime_event
push_events [] q = q
push_events (event ∷ events) q = push_events events (push_runtime_event event q)

-- `*event` before the call; `none` for a null pointer.
pub record EventOutput : Type 0 where
  pub writable : Bool
  pub struct_size : ℕ

pub data PollError : Type 0 where
  not_writable : PollError
  wrong_size : PollError

pub data PollResult : Type 0 where
  poll_failed : PollError → PollResult
  no_event : PollResult
  overflowed : ℕ → PollResult
  polled : RuntimeEvent → PollResult

-- The event of an overflow.
unfoldable pub overflow_event : ℕ → RuntimeEvent
unfolding make_event decimal_text
overflow_event dropped =
    make_event event_error error_event_overflow 0 0
      (some (codes "Realms event queue dropped " ++ decimal_text 10 dropped ++ codes " events"))

-- The last section: the front of the queue.
unfoldable pub pop_event : EventQueue → PollResult × EventQueue
pop_event q = elim q.events [
  | [] ↦ (no_event, q)
  | event ∷ events ↦ (polled event, record q { events = events })
]

-- After the check of the output: the exchange of the count, then what is pushed, then the front.
unfoldable pub take_event : List RuntimeEvent → EventQueue → PollResult × EventQueue
unfolding pop_event push_events
take_event pushed q =
    if not (q.dropped == 0)
    then (overflowed q.dropped, push_events pushed (record q { dropped = 0 }))
    else pop_event (push_events pushed (record q { dropped = 0 }))

-- `before` is pushed after the first look at the queue, and `pushed` after the exchange. Where the
-- call is over by then they are pushed when it has returned.
unfoldable pub poll_runtime_event :
    Option EventOutput
    → List RuntimeEvent
    → List RuntimeEvent
    → EventQueue
    → PollResult × EventQueue
unfolding take_event
poll_runtime_event none before pushed q =
    (poll_failed not_writable, push_events pushed (push_events before q))
poll_runtime_event (some output) before pushed q =
    let later = push_events pushed (push_events before q) in
    if length q.events == 0 && q.dropped == 0
    then (no_event, later)
    else if not output.writable
    then (poll_failed not_writable, later)
    else if not (output.struct_size == runtime_event_size)
    then (poll_failed wrong_size, later)
    else take_event pushed (push_events before q)
