-- ===== src/P2p/Session.antt =====
-- p2p/session.go: the sessions of the message broker. Sessions are shared objects: the broker's
-- heap has them under addresses, and `consumers` has the address of a session under its id. What
-- runs between two locks is one step. Handlers are values of a type `H`; the transport, the
-- generator of session ids and contexts are parameters: a step gets what they give.
pub mod Sending
pub mod Consumers
pub mod Races
use conver_go.Base.{
  Bool, List, Map, Option, Outcome, Result, Text, [], eqb, err, false, get_elem?, if◌then◌else◌,
  insert, length, lookup, ltb, none, ok, panic, remove, ret, some, suc, text_Eq, true, values, zero,
  ℕ, ◌%◌, ◌++◌, ◌+◌, ◌>>=◌, ◌^◌, ◌∷◌,
}
use conver_go.P2p.Message.{PeerMessage, SessionFields}

-- `NEW_MSG_SEQUENCE` and `INITIATED_MSG_SEQUENCE`
abbrev pub new_msg_sequence : ℕ
new_msg_sequence = 0

abbrev pub initiated_msg_sequence : ℕ
initiated_msg_sequence = 1

-- `SessionRole`
pub data SessionRole : Type 0 where
  session_initiator session_receiver : SessionRole

-- `PeerMessageSession`: the buffer of the channel `Recv`, oldest first, its capacity, and the
-- fields that the mutex protects. `Close` closes the channel where it sets `isClosed`.
pub record Session : Type 0 where
  pub id : Text
  pub topic : Text
  pub queue_size : ℕ
  pub recv : List PeerMessage
  pub current_seq_no : ℕ
  pub is_closed : Bool

pub data SessionError (E : Type 0) : Type 0 where
  already_closed out_of_order timed_out : SessionError E
  transport_error : E → SessionError E

-- `s.CurrentSeqNo++` on 32 bits
unfoldable pub next_seq_no : ℕ → ℕ
next_seq_no n = (n + 1) % 2 ^ 32

-- `setupSendingMsg`
unfoldable pub setup_sending_msg :
    {E : Type 0} → Session → PeerMessage → Session × Result (SessionError E) PeerMessage
setup_sending_msg s payload_msg = if s.is_closed then (s, err already_closed) else (
  record s { current_seq_no = next_seq_no s.current_seq_no },
  ok (record payload_msg {
    fields = record { topic_name = s.topic; session_id = s.id; seq_no = s.current_seq_no };
  }),
)

-- `Send` and `Broadcast`: the two differ in the call of the transport, which gives an error or
-- none.
unfoldable pub send :
    {E : Type 0}
    → (PeerMessage → Option E)
    → Session
    → PeerMessage
    → Session × Option (SessionError E)
send transport s payload_msg =
    let (s', prepared) = setup_sending_msg s payload_msg in
    (
      s',
      elim prepared [
        | err e ↦ some e
        | ok msg ↦ elim (transport msg) [ none ↦ none | some e ↦ some (transport_error e) ]
      ],
    )

-- `WaitOn`, where it has the first message of the buffer, or times out on an empty one.
unfoldable pub receive :
    {E : Type 0} → Session → List PeerMessage → Session × Result (SessionError E) PeerMessage
receive s [] = (s, err timed_out)
receive s (msg ∷ rest) = (
  record s { recv = rest },
  if eqb msg.fields.seq_no s.current_seq_no then ok msg else err out_of_order,
)

unfoldable pub wait_on : {E : Type 0} → Session → Session × Result (SessionError E) PeerMessage
wait_on s = if s.is_closed then (s, err already_closed) else receive s s.recv

-- `PeerMessageBroker`: `running` says that `runCtx` and `cancel` are set.
pub record Broker (H : Type 0) : Type 0 where
  pub handlers : Map Text (List H)
  pub consumers : Map Text ℕ
  pub heap : List Session
  pub queue_size : ℕ
  pub stopped : Bool
  pub running : Bool

unfoldable pub session_at : {H : Type 0} → Broker H → ℕ → Option Session
session_at b address = get_elem? b.heap address

unfoldable pub set_at : ℕ → Session → List Session → List Session
set_at address s [] = []
set_at zero s (t ∷ heap) = s ∷ heap
set_at (suc address) s (t ∷ heap) = t ∷ set_at address s heap

unfoldable pub new_broker : {H : Type 0} → ℕ → Broker H
new_broker queue_size = record {
  handlers = [];
  consumers = [];
  heap = [];
  queue_size = queue_size;
  stopped = false;
  running = false;
}

unfoldable pub handlers_of : {H : Type 0} → Broker H → Text → List H
handlers_of b topic = elim (lookup topic b.handlers) [ none ↦ [] | some hs ↦ hs ]

unfoldable pub register_handler : {H : Type 0} → Broker H → Text → H → Broker H
register_handler b topic handler =
    if b.stopped
    then b
    else record b { handlers = insert topic (handlers_of b topic ++ (handler ∷ [])) b.handlers }

pub data StartError : Type 0 where
  broker_stopped broker_started : StartError

-- `StartWaiting` up to its loop, and its deferred end.
unfoldable pub start_waiting : {H : Type 0} → Broker H → Result StartError (Broker H)
start_waiting b =
    if b.stopped
    then err broker_stopped
    else if b.running
    then err broker_started
    else ok (record b { running = true })

unfoldable pub end_waiting : {H : Type 0} → Broker H → Broker H
end_waiting b = record b { running = false }

unfoldable pub starting_seq_no : SessionRole → ℕ
starting_seq_no session_initiator = new_msg_sequence
starting_seq_no session_receiver = initiated_msg_sequence

-- `createSessionLocked`: the new broker and the address of the session.
unfoldable pub create_session_locked :
    {H : Type 0} → Broker H → Text → SessionRole → Text → Broker H × ℕ
create_session_locked b topic role id = (
  record b {
    heap =
        b.heap
        ++ (record {
          id = id;
          topic = topic;
          queue_size = b.queue_size;
          recv = [];
          current_seq_no = starting_seq_no role;
          is_closed = false;
        }
            ∷ []);
    consumers = insert id (length b.heap) b.consumers;
  },
  length b.heap,
)

-- `CreateNewSession`, with the id that the generator gives.
unfoldable pub create_new_session : {H : Type 0} → Broker H → Text → Text → Broker H × Option ℕ
create_new_session b topic id =
    if b.stopped
    then (b, none)
    else (let (b', address) = create_session_locked b topic session_initiator id in
        (b', some address))

-- The loop of `dispatchMessage` that makes a session for every handler.
unfoldable pub create_sessions :
    {H : Type 0} → Broker H → Text → Text → List H → Broker H × List (H × ℕ)
create_sessions b topic id [] = (b, [])
create_sessions b topic id (h ∷ hs) =
    let (b', address) = create_session_locked b topic session_receiver id in
    let (b'', rest) = create_sessions b' topic id hs in (b'', (h, address) ∷ rest)

-- What `dispatchMessage` does under the lock, and what is left to do after it.
pub data Dispatch (H : Type 0) : Type 0 where
  dropped : Dispatch H
  started : List (H × ℕ) → Dispatch H
  delivering : ℕ → Dispatch H

unfoldable pub dispatch_message : {H : Type 0} → Broker H → PeerMessage → Broker H × Dispatch H
dispatch_message b msg =
    if b.stopped
    then (b, dropped)
    else if eqb msg.fields.seq_no new_msg_sequence
    then (let (b', sessions) =
          create_sessions b msg.fields.topic_name msg.fields.session_id
            (handlers_of b msg.fields.topic_name) in
        (b', started sessions))
    else (
      b,
      elim (lookup msg.fields.session_id b.consumers) [
        | none ↦ dropped
        | some address ↦ delivering address
      ],
    )

-- The send at the end of `dispatchMessage`, after the lock is given back: Go panics on a closed
-- channel, and drops the message where the buffer is full.
unfoldable pub push_recv : Session → PeerMessage → Outcome Session
push_recv s msg =
    if s.is_closed
    then panic
    else if ltb (length s.recv) s.queue_size
    then ret (record s { recv = s.recv ++ (msg ∷ []) })
    else ret s

unfoldable pub deliver : {H : Type 0} → Broker H → ℕ → PeerMessage → Outcome (Broker H)
deliver b address msg = elim (session_at b address) [
  | none ↦ panic
  | some s ↦ push_recv s msg >>= λ s'. ret (record b { heap = set_at address s' b.heap })
]

unfoldable pub remove_session : {H : Type 0} → Broker H → Text → Broker H
remove_session b id = record b { consumers = remove id b.consumers }

-- `Close`, whose `onClose` is `removeSession`.
unfoldable pub close_session : {H : Type 0} → Broker H → ℕ → Session → Broker H
close_session b address s =
    if s.is_closed
    then b
    else remove_session (record b { heap = set_at address (record s { is_closed = true }) b.heap })
        s.id

unfoldable pub close : {H : Type 0} → Broker H → ℕ → Broker H
close b address = elim (session_at b address) [ none ↦ b | some s ↦ close_session b address s ]

unfoldable pub close_all : {H : Type 0} → Broker H → List ℕ → Broker H
close_all b [] = b
close_all b (address ∷ addresses) = close_all (close b address) addresses

-- `Stop`: `cancel` ends the wait, whose deferred end is a step of its own.
unfoldable pub stop : {H : Type 0} → Broker H → Broker H
stop b = if b.stopped then b else close_all (record b { stopped = true }) (values b.consumers)
