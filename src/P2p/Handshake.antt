-- ===== src/P2p/Handshake.antt =====
-- p2p/hostexhanger.go and p2p/handshake.go: the exchange of infos over a new connection. A party
-- waits for a message twice or once; what it does up to the next wait is one step. The codec and the
-- writes on the connection are what the steps are given.
pub mod Agreement
pub mod Checks
use conver_go.Base.{
  Bool, List, Option, Outcome, Result, Text, [], codes, eqb, err, if◌then◌else◌, none, not, ok,
  panic, ret, some, text_Eq, ℕ, ◌==◌, ◌∷◌,
}
use conver_go.P2p.Message.{PeerHostInfo, PeerMessage, get_peer_metadata}

abbrev pub tcp_host_exchanger : Text
tcp_host_exchanger = codes "TCP_HOST_EXCHANGER_TOPIC"

pub data HandshakeRole : Type 0 where
  initiator receiver : HandshakeRole

pub data HandshakeStep : Type 0 where
  step_init step_receiver_exchange step_sender_exchange step_ack : HandshakeStep

-- Why a step fails.
pub data Cause (E : Type 0) : Type 0 where
  wrong_topic : Text → Cause E
  out_of_sequence : ℕ → ℕ → Cause E
  failed : E → Cause E

-- `utils.HandshakeError`
pub record HandshakeError (E : Type 0) : Type 0 where
  pub at_step : HandshakeStep
  pub target : Text
  pub cause : Cause E

-- What a wait on the two channels of a session meets: a message, an error, or one of the channels
-- closed.
pub data Arrival (E : Type 0) : Type 0 where
  message : Text → Arrival E
  failure : E → Arrival E
  messages_closed errors_closed : Arrival E

-- What the exchange uses of the connection.
pub record Exchanger (E : Type 0) : Type 0 where
  pub local_info : PeerHostInfo
  pub encode : PeerMessage → Result E Text
  pub decode : Text → Result E PeerMessage

unfoldable pub check_msg_validity : {E : Type 0} → ℕ → ℕ → Text → Option (Cause E)
check_msg_validity expected_seq_no provided_seq_no provided_topic_name =
    if not (provided_topic_name == tcp_host_exchanger)
    then some (wrong_topic provided_topic_name)
    else if not (eqb provided_seq_no expected_seq_no)
    then some (out_of_sequence expected_seq_no provided_seq_no)
    else none

-- The end of `waitForTargetPeerName`: the topic that is checked is the constant.
unfoldable pub name_of_message :
    {E : Type 0} → Exchanger E → ℕ → Text → Result (Cause E) PeerHostInfo
name_of_message ex expected_seq_no by_msg = elim (ex.decode by_msg) [
  | err e ↦ err (failed e)
  | ok msg ↦ elim (check_msg_validity expected_seq_no msg.fields.seq_no tcp_host_exchanger) [
    | some cause ↦ err cause
    | none ↦ ok msg.info
  ]
]

-- `waitForTargetPeerName`: a closed channel gives the zero value, no bytes or no error.
unfoldable pub wait_for_target_peer_name :
    {E : Type 0} → Exchanger E → Arrival E → ℕ → Result (Cause E) PeerHostInfo
wait_for_target_peer_name ex (message by_msg) expected_seq_no =
    name_of_message ex expected_seq_no by_msg
wait_for_target_peer_name ex (failure e) expected_seq_no = err (failed e)
wait_for_target_peer_name ex messages_closed expected_seq_no = name_of_message ex expected_seq_no []
wait_for_target_peer_name ex errors_closed expected_seq_no =
    ok (record { id = []; user = record { name = []; address = [] } })

-- The message of `sendPeerName`.
unfoldable pub name_message : PeerHostInfo → ℕ → PeerMessage
name_message sender_info sending_seq_no =
    let msg = get_peer_metadata tcp_host_exchanger [] sender_info [] in
    record msg {
      fields = record { topic_name = tcp_host_exchanger; session_id = []; seq_no = sending_seq_no };
    }

-- `sendPeerName`: the bytes that were written.
unfoldable pub send_peer_name :
    {E : Type 0} → Exchanger E → (Text → Option E) → ℕ → Result (Cause E) Text
send_peer_name ex write sending_seq_no =
    elim (ex.encode (name_message ex.local_info sending_seq_no)) [
      | err e ↦ err (failed e)
      | ok by_peer ↦ elim (write by_peer) [ none ↦ ok by_peer | some e ↦ err (failed e) ]
    ]

-- Where a party stands: waiting for a name or for the ACK of a target, or at its end.
pub data Phase (E : Type 0) : Type 0 where
  awaiting_name : Phase E
  awaiting_ack : PeerHostInfo → Phase E
  finished : Result (HandshakeError E) PeerHostInfo → Phase E

unfoldable pub failing_at : {E : Type 0} → HandshakeStep → Text → Cause E → Phase E
failing_at at_step target cause =
    finished (err (record { at_step = at_step; target = target; cause = cause }))

-- `initiateHandshake` and `receiveHandshake` up to the first wait: what is written, and the phase.
unfoldable pub begin :
    {E : Type 0} → Exchanger E → (Text → Option E) → Text → HandshakeRole → List Text × Phase E
begin ex write remote_address initiator = ([], awaiting_name)
begin ex write remote_address receiver = elim (send_peer_name ex write 0) [
  | err cause ↦ ([], failing_at step_receiver_exchange remote_address cause)
  | ok bytes ↦ (bytes ∷ [], awaiting_name)
]

-- From one wait of a party to the next, or to its end.
unfoldable pub resume :
    {E : Type 0}
    → Exchanger E
    → (Text → Option E)
    → Text
    → HandshakeRole
    → Phase E
    → Arrival E
    → List Text × Phase E
resume ex write remote_address initiator awaiting_name arrival =
    elim (wait_for_target_peer_name ex arrival 0) [
      | err cause ↦ ([], failing_at step_receiver_exchange remote_address cause)
      | ok target_hostname ↦ elim (send_peer_name ex write 1) [
        | err cause ↦ ([], failing_at step_sender_exchange target_hostname.user.address cause)
        | ok bytes ↦ (bytes ∷ [], awaiting_ack target_hostname)
      ]
    ]
resume ex write remote_address initiator (awaiting_ack target_hostname) arrival =
    elim (wait_for_target_peer_name ex arrival 2) [
      | err cause ↦ ([], failing_at step_ack target_hostname.user.address cause)
      | ok _ ↦ ([], finished (ok target_hostname))
    ]
resume ex write remote_address receiver awaiting_name arrival =
    elim (wait_for_target_peer_name ex arrival 1) [
      | err cause ↦ ([], failing_at step_sender_exchange remote_address cause)
      | ok target_hostname ↦ elim (send_peer_name ex write 2) [
        | err cause ↦ ([], failing_at step_ack target_hostname.user.address cause)
        | ok bytes ↦ (bytes ∷ [], finished (ok target_hostname))
      ]
    ]
resume ex write remote_address receiver (awaiting_ack target_hostname) arrival =
    ([], awaiting_ack target_hostname)
resume ex write remote_address role (finished result) arrival = ([], finished result)

-- `Shake`, whether the connection is one: the error of `NewTCPPeer` is reported with the address of the
-- peer that it did not give.
unfoldable pub shake :
    {E : Type 0}
    → Exchanger E
    → (Text → Option E)
    → Text
    → HandshakeRole
    → Bool
    → Outcome (List Text × Phase E)
shake ex write remote_address role is_connection =
    if is_connection then ret (begin ex write remote_address role) else panic
