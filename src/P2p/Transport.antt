-- ===== src/P2p/Transport.antt =====
-- p2p/communication.go: the transport over connections. Peers are shared objects: `heap` has them
-- under addresses, and `peers` has the address of a peer under its target. The codec, a write on a
-- connection and the handshake over a new connection are what the steps are given.

pub mod Handling
pub mod Sends
pub mod Targets
use conver_go.Base.{
  Bool, List, Map, Option, Outcome, Result, Text, [], codes, eqb, err, false, get_elem?, has,
  if◌then◌else◌, insert, keys, length, lookup, none, ok, panic, remove, ret, set, some, suc,
  text_Eq, ℕ, ◌++◌, ◌==◌, ◌>>=◌, ◌∷◌,
}
use conver_go.P2p.Message.{PeerHostInfo, PeerMessage, get_peer_metadata, info_Eq}
use conver_go.P2p.Channel.{
  BroadcastError, SafeChannel, ShutDownFlag, close_channel, close_flag, new_safe_channel,
  send_value,
}
use conver_go.P2p.Peer.{TcpPeer, close, get_peer_info}

pub record TcpLayer (D E : Type 0) : Type 0 where
  pub local_id : PeerHostInfo
  pub shutdown_flag : ShutDownFlag
  pub msg_ch : SafeChannel D
  pub local_msg_factory : Option (PeerMessage → Option D)
  pub peers : Map PeerHostInfo ℕ
  pub heap : List (TcpPeer E)

-- `NewTCPTransportWithShake`
unfoldable pub new_tcp_transport : {D E : Type 0} → TcpLayer D E
new_tcp_transport = record {
  local_id = record { id = []; user = record { name = []; address = [] } };
  shutdown_flag = record { is_shut_down = false };
  msg_ch = new_safe_channel;
  local_msg_factory = none;
  peers = [];
  heap = [];
}

unfoldable pub set_local_msg_factory :
    {D E : Type 0} → TcpLayer D E → (PeerMessage → Option D) → TcpLayer D E
set_local_msg_factory t factory = record t { local_msg_factory = some factory }

pub data TransportError (E : Type 0) : Type 0 where
  own_address no_peers peer_exists peer_missing flag_closed : TransportError E
  connection_error : E → TransportError E

unfoldable pub is_peer_present : {D E : Type 0} → TcpLayer D E → PeerHostInfo → Bool
is_peer_present t target = has target t.peers

-- `Send`, with the layer as the check of the target meets it and as the read of its peer does: the
-- two are not under the lock. The value is the address and the bytes that were written.
unfoldable pub send_between :
    {D E : Type 0}
    → (encode : D → Result E Text) → (write : ℕ → Text → Option E) → TcpLayer D E
    → TcpLayer D E
    → D
    → PeerHostInfo
    → Outcome (Result (TransportError E) (ℕ × Text))
send_between encode write t t' data_msg target = elim (encode data_msg) [
  | err e ↦ ret (err (connection_error e))
  | ok bytes ↦
      if is_peer_present t target
      then elim (lookup target t'.peers) [
        | none ↦ panic
        | some address ↦ elim (write address bytes) [
          | none ↦ ret (ok (address, bytes))
          | some e ↦ ret (err (connection_error e))
        ]
      ]
      else ret (err peer_missing)
]

unfoldable pub send :
    {D E : Type 0}
    → (encode : D → Result E Text) → (write : ℕ → Text → Option E) → TcpLayer D E
    → D
    → PeerHostInfo
    → Outcome (Result (TransportError E) (ℕ × Text))
send encode write t data_msg target = send_between encode write t t data_msg target

-- The loop of `Broadcast` over the targets that are left, `i` the position of the first of them:
-- what was written, and the failure.
unfoldable pub broadcast_to :
    {D E : Type 0}
    → (encode : D → Result E Text) → (write : ℕ → Text → Option E) → TcpLayer D E
    → D
    → List PeerHostInfo
    → ℕ
    → List PeerHostInfo
    → Outcome (List (ℕ × Text) × Option (BroadcastError PeerHostInfo (TransportError E)))
broadcast_to encode write t data_msg targets i [] = ret ([], none)
broadcast_to encode write t data_msg targets i (addr ∷ rest) =
    send encode write t data_msg addr >>= λ result. elim result [
      | err cause ↦ ret ([], some (record { targets = targets; failed_index = i; cause = cause }))
      | ok written ↦
          broadcast_to encode write t data_msg targets (suc i) rest >>= λ (others, failure).
          ret (written ∷ others, failure)
    ]

-- `Broadcast`, with no other step between; `err` is the error of a transport without peers.
unfoldable pub broadcast :
    {D E : Type 0}
    → (encode : D → Result E Text) → (write : ℕ → Text → Option E) → TcpLayer D E
    → D
    → Outcome (
        Result
          (TransportError E)
          (List (ℕ × Text) × Option (BroadcastError PeerHostInfo (TransportError E))))
broadcast encode write t data_msg =
    if eqb (length t.peers) 0
    then ret (err no_peers)
    else (broadcast_to encode write t data_msg (keys t.peers) 0 (keys t.peers) >>= λ sent.
        ret (ok sent))

unfoldable pub get_targets : {D E : Type 0} → TcpLayer D E → List PeerHostInfo
get_targets t = keys t.peers

-- `constructAndSendMetaMsg`, with the message that the factory makes, if there is one.
unfoldable pub send_meta_msg : {D E : Type 0} → Option D → TcpLayer D E → TcpLayer D E
send_meta_msg none t = t
send_meta_msg (some env) t = record t {
  msg_ch = if t.shutdown_flag.is_shut_down then t.msg_ch else (send_value t.msg_ch env).0;
}

unfoldable pub construct_and_send_meta_msg :
    {D E : Type 0} → TcpLayer D E → PeerMessage → TcpLayer D E
construct_and_send_meta_msg t header =
    send_meta_msg (elim t.local_msg_factory [ none ↦ none | some factory ↦ factory header ]) t

-- `addPeer` of a new object.
unfoldable pub add_peer : {D E : Type 0} → TcpLayer D E → PeerHostInfo → TcpPeer E → TcpLayer D E
add_peer t addr p = record t {
  peers = insert addr (length t.heap) t.peers;
  heap = t.heap ++ (p ∷ []);
}

-- A step of the peer at an address.
unfoldable pub at_peer :
    {D E : Type 0} → (TcpPeer E → Outcome (TcpPeer E)) → ℕ → TcpLayer D E → Outcome (TcpLayer D E)
at_peer f address t = elim (get_elem? t.heap address) [
  | none ↦ panic
  | some p ↦ f p >>= λ p'. ret (record t { heap = set t.heap address p' })
]

-- `removePeer`
unfoldable pub remove_peer : {D E : Type 0} → TcpLayer D E → PeerHostInfo → Outcome (TcpLayer D E)
remove_peer t addr = elim (lookup addr t.peers) [
  | none ↦ ret t
  | some address ↦
      at_peer close address t >>= λ t'. ret (record t' { peers = remove addr t'.peers })
]

-- `Remove`
unfoldable pub remove_target :
    {D E : Type 0}
    → TcpLayer D E
    → PeerHostInfo
    → Outcome (TcpLayer D E × Option (TransportError E))
remove_target t target =
    if is_peer_present t target
    then (remove_peer t target >>= λ t'. ret (t', none))
    else ret (t, some peer_missing)

-- `Add` up to the start of its goroutine, with what `connectTo` gives.
unfoldable pub add_target :
    {D E : Type 0}
    → TcpLayer D E
    → PeerHostInfo
    → Result E (TcpPeer E)
    → TcpLayer D E × Option (TransportError E)
add_target t target connected =
    if target == t.local_id
    then (t, some own_address)
    else if is_peer_present t target
    then (t, some peer_exists)
    else elim connected [
      | err e ↦ (t, some (connection_error e))
      | ok p ↦ (add_peer t target p, none)
    ]

abbrev pub peer_connection_topic : Text
peer_connection_topic = codes "PEER_CONNECTION_TOPIC"

abbrev pub peer_exit_topic : Text
peer_exit_topic = codes "PEER_EXIT_TOPIC"

-- One turn of the loop of `ListenFor` after `Accept`, with what the handshake gives; an error has
-- its text.
unfoldable pub accept : {D E : Type 0} → TcpLayer D E → Result Text (TcpPeer E) → TcpLayer D E
accept t shaken = if t.shutdown_flag.is_shut_down then t else elim shaken [
  | err text ↦ construct_and_send_meta_msg t (
      get_peer_metadata peer_connection_topic text
        (record { id = []; user = record { name = []; address = [] } }) [])
  | ok p ↦
      construct_and_send_meta_msg (add_peer t (get_peer_info p) p)
        (get_peer_metadata peer_connection_topic [] (get_peer_info p) [])
]

-- The end of `ListenFor`, once the flag is closed.
unfoldable pub end_listening : {D E : Type 0} → TcpLayer D E → TcpLayer D E
end_listening t = record t { msg_ch = close_channel t.msg_ch }

-- The loop of `Shutdown`.
unfoldable pub remove_peers :
    {D E : Type 0} → TcpLayer D E → List PeerHostInfo → Outcome (TcpLayer D E)
remove_peers t [] = ret t
remove_peers t (addr ∷ addrs) = remove_peer t addr >>= λ t'. remove_peers t' addrs

unfoldable pub close_layer :
    {D E : Type 0} → Option ShutDownFlag → TcpLayer D E → TcpLayer D E × Option (TransportError E)
close_layer none t = (t, some flag_closed)
close_layer (some flag) t = (record t { shutdown_flag = flag }, none)

unfoldable pub shutdown :
    {D E : Type 0} → TcpLayer D E → Outcome (TcpLayer D E × Option (TransportError E))
shutdown t =
    remove_peers t (keys t.peers) >>= λ t'. ret (close_layer (close_flag t'.shutdown_flag) t')
