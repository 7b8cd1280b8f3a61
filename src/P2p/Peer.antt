-- ===== src/P2p/Peer.antt =====
-- p2p/peer.go: the receive sessions of a `TCPPeer`. A session has a channel of messages and one of
-- errors, which are made and closed together; what runs under the peer's lock is one step. Sending
-- on a closed channel and closing it again are Go's panics.
pub mod Channels
pub mod Runs
pub mod Reading
use conver_go.Base.{
  Bool, List, Option, Outcome, Text, [], eqb, false, get_elem?, if◌then◌else◌, length, ltb, none,
  panic, ret, set, some, text_Eq, true, ℕ, ◌++◌, ◌>>=◌, ◌∷◌,
}
use conver_go.P2p.Message.{PeerHostInfo}

-- An error of a session: `ctx.Err()`, or one of the connection.
pub data PeerError (E : Type 0) : Type 0 where
  context_ended : PeerError E
  read_error : E → PeerError E

-- The two channels of one call of `Receive`, and whether its context has ended.
pub record RecvSession (E : Type 0) : Type 0 where
  pub messages : List Text
  pub errors : List (PeerError E)
  pub is_done : Bool
  pub is_closed : Bool

-- `sessions` are all that were made; `active` is the position of the current one, none where
-- `recvActive` is false.
pub record TcpPeer (E : Type 0) : Type 0 where
  pub remote_peer_info : PeerHostInfo
  pub sessions : List (RecvSession E)
  pub active : Option ℕ
  pub is_reading : Bool
  pub is_closed : Bool

-- The capacity of the channel of messages.
abbrev pub message_capacity : ℕ
message_capacity = 16

-- `NewTCPPeer` of a connection.
unfoldable pub new_tcp_peer : {E : Type 0} → TcpPeer E
new_tcp_peer = record {
  remote_peer_info = record { id = []; user = record { name = []; address = [] } };
  sessions = [];
  active = none;
  is_reading = false;
  is_closed = false;
}

unfoldable pub get_peer_info : {E : Type 0} → TcpPeer E → PeerHostInfo
get_peer_info p = p.remote_peer_info

unfoldable pub set_peer_info : {E : Type 0} → TcpPeer E → PeerHostInfo → TcpPeer E
set_peer_info p info = record p { remote_peer_info = info }

-- A send with a `default` on the channel of errors, which holds one.
unfoldable pub push_error :
    {E : Type 0} → Option (PeerError E) → List (PeerError E) → List (PeerError E)
push_error none errors = errors
push_error (some e) [] = e ∷ []
push_error (some e) (first ∷ errors) = first ∷ errors

unfoldable pub close_channels :
    {E : Type 0} → Option (PeerError E) → RecvSession E → Outcome (RecvSession E)
close_channels optional_err s =
    if s.is_closed
    then panic
    else ret (record s { errors = push_error optional_err s.errors; is_closed = true })

unfoldable pub close_session_locked :
    {E : Type 0} → Option (PeerError E) → TcpPeer E → Outcome (TcpPeer E)
close_session_locked optional_err p = elim p.active [
  | none ↦ ret p
  | some i ↦ elim (get_elem? p.sessions i) [
    | none ↦ panic
    | some s ↦ close_channels optional_err s >>= λ s'.
        ret (record p { sessions = set p.sessions i s'; active = none })
  ]
]

-- The context of a session ends.
unfoldable pub cancel : {E : Type 0} → ℕ → TcpPeer E → TcpPeer E
cancel i p = elim (get_elem? p.sessions i) [
  | none ↦ p
  | some s ↦ record p { sessions = set p.sessions i (record s { is_done = true }) }
]

unfoldable pub new_recv_session : {E : Type 0} → RecvSession E
new_recv_session = record { messages = []; errors = []; is_done = false; is_closed = false }

unfoldable pub end_active : {E : Type 0} → TcpPeer E → Outcome (TcpPeer E)
end_active p = elim p.active [ none ↦ ret p | some i ↦ close_session_locked none (cancel i p) ]

-- `Receive`, with the read loop started; the session that it makes is the last one.
unfoldable pub receive : {E : Type 0} → TcpPeer E → Outcome (TcpPeer E)
receive p = end_active p >>= λ p'. ret (record p' {
  sessions = p'.sessions ++ (new_recv_session ∷ []);
  active = some (length p'.sessions);
  is_reading = true;
})

unfoldable pub is_active : {E : Type 0} → ℕ → TcpPeer E → Bool
is_active i p = elim p.active [ none ↦ false | some j ↦ eqb i j ]

-- The watcher of session `i`, once its context has ended.
unfoldable pub watch : {E : Type 0} → ℕ → TcpPeer E → Outcome (TcpPeer E)
watch i p = if is_active i p then close_session_locked (some context_ended) p else ret p

-- What becomes of a message; a full channel makes the step wait for a reader.
pub data Delivery : Type 0 where
  delivered dropped waiting : Delivery

unfoldable pub send_message :
    {E : Type 0} → Text → RecvSession E → Outcome (RecvSession E × Delivery)
send_message msg s =
    if s.is_closed
    then panic
    else if ltb (length s.messages) message_capacity
    then ret (record s { messages = s.messages ++ (msg ∷ []) }, delivered)
    else ret (s, waiting)

-- `deliverMessage`
unfoldable pub deliver_message : {E : Type 0} → Text → TcpPeer E → Outcome (TcpPeer E × Delivery)
deliver_message msg p = elim p.active [
  | none ↦ ret (p, dropped)
  | some i ↦ elim (get_elem? p.sessions i) [
    | none ↦ panic
    | some s ↦
        if s.is_done
        then (close_session_locked (some context_ended) p >>= λ p'. ret (p', dropped))
        else (send_message msg s >>= λ (s', d).
            ret (record p { sessions = set p.sessions i s' }, d))
  ]
]

unfoldable pub report_error : {E : Type 0} → PeerError E → RecvSession E → Outcome (RecvSession E)
report_error e s =
    if s.is_closed then panic else ret (record s { errors = push_error (some e) s.errors })

-- `handleReadError`
unfoldable pub handle_read_error : {E : Type 0} → E → TcpPeer E → Outcome (TcpPeer E)
handle_read_error e p = elim p.active [
  | none ↦ ret p
  | some i ↦ elim (get_elem? p.sessions i) [
    | none ↦ panic
    | some s ↦ report_error (read_error e) s >>= λ s'.
        close_session_locked none (record p { sessions = set p.sessions i s' })
  ]
]

-- `Close`, once.
unfoldable pub close : {E : Type 0} → TcpPeer E → Outcome (TcpPeer E)
close p =
    if p.is_closed
    then ret p
    else (close_session_locked none p >>= λ p'. ret (record p' { is_closed = true }))

-- What can happen to a peer, in any order.
pub data Event (E : Type 0) : Type 0 where
  receiving closing : Event E
  context_ends watching : ℕ → Event E
  arriving : Text → Event E
  failing : E → Event E

unfoldable pub step : {E : Type 0} → Event E → TcpPeer E → Outcome (TcpPeer E)
step receiving p = receive p
step closing p = close p
step (context_ends i) p = ret (cancel i p)
step (watching i) p = watch i p
step (arriving msg) p = deliver_message msg p >>= λ (p', d). ret p'
step (failing e) p = handle_read_error e p

unfoldable pub run : {E : Type 0} → List (Event E) → TcpPeer E → Outcome (TcpPeer E)
run [] p = ret p
run (e ∷ es) p = step e p >>= λ p'. run es p'
