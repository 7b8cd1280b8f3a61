-- ===== src/P2p/Transport/Handling.antt =====
-- `handlePeer` of p2p/communication.go, one turn of its loop at a time, and the events of a
-- transport in any order. A `select` with several cases ready takes any of them: the choice is an
-- argument, and a choice that is not ready makes the turn wait.
pub mod Soundness
pub mod Turns
pub mod Exits
use conver_go.Base.{
  Bool, List, Option, Outcome, Result, Text, [], codes, drop, false, get_elem?, if◌then◌else◌,
  length, ltb, none, panic, ret, set, some, text_Eq, ℕ, ◌>>=◌, ◌∷◌,
}
use conver_go.P2p.Message.{PeerHostInfo, get_peer_metadata, info_Eq}
use conver_go.P2p.Channel.{send_value}
use conver_go.P2p.Peer.{Event, PeerError, RecvSession, TcpPeer, get_peer_info, step}
use conver_go.P2p.Transport.{
  TcpLayer, accept, add_target, at_peer, construct_and_send_meta_msg, end_listening,
  peer_exit_topic, remove_peer, remove_target, shutdown,
}

pub data Choice : Type 0 where
  takes_message takes_error takes_end : Choice

-- What a turn comes to; a loop that has returned has not yet run what it deferred.
pub data Turn (D E : Type 0) : Type 0 where
  continued returned : TcpLayer D E → Turn D E
  waits : Turn D E

-- A receive on each of the two channels of a session.
unfoldable pub take_message : {E : Type 0} → RecvSession E → RecvSession E
take_message s = record s { messages = drop 1 s.messages }

unfoldable pub take_error : {E : Type 0} → RecvSession E → RecvSession E
take_error s = record s { errors = drop 1 s.errors }

-- The layer once session `i` of the peer at an address is written.
unfoldable pub with_recv_session :
    {D E : Type 0} → TcpLayer D E → ℕ → TcpPeer E → ℕ → RecvSession E → TcpLayer D E
with_recv_session t address p i s = record t {
  heap = set t.heap address (record p { sessions = set p.sessions i s });
}

-- A message is decoded and handed over; one that does not decode is skipped.
unfoldable pub pass_on : {D E : Type 0} → Option D → TcpLayer D E → Turn D E
pass_on none t = continued t
pass_on (some value) t =
    let (ch, is_send_succ) = send_value t.msg_ch value in
    if is_send_succ then continued (record t { msg_ch = ch }) else returned t

abbrev pub forcibly_closed : Text
forcibly_closed = codes "connection forcibly closed"

unfoldable pub exit_with : {D E : Type 0} → Text → TcpPeer E → TcpLayer D E → Turn D E
exit_with text p t =
    returned
      (construct_and_send_meta_msg t (get_peer_metadata peer_exit_topic text (get_peer_info p) []))

unfoldable pub choose :
    {D E : Type 0}
    → (decode : Text → Option D) → (text_of : PeerError E → Text) → TcpLayer D E
    → ℕ
    → TcpPeer E
    → ℕ
    → RecvSession E
    → Choice
    → Turn D E
choose decode text_of t address p i s takes_message = elim s.messages [
  | [] ↦ if s.is_closed then returned t else waits
  | msg ∷ _ ↦ pass_on (decode msg) (with_recv_session t address p i (take_message s))
]
choose decode text_of t address p i s takes_error = elim s.errors [
  | [] ↦ if s.is_closed then exit_with forcibly_closed p t else waits
  | e ∷ _ ↦ exit_with (text_of e) p (with_recv_session t address p i (take_error s))
]
choose decode text_of t address p i s takes_end = if s.is_done then returned t else waits

-- A turn of the loop for session `i` of the peer at an address.
unfoldable pub turn :
    {D E : Type 0}
    → (decode : Text → Option D) → (text_of : PeerError E → Text) → TcpLayer D E
    → ℕ
    → ℕ
    → Choice
    → Outcome (Turn D E)
turn decode text_of t address i choice =
    if t.shutdown_flag.is_shut_down then ret (returned t) else elim (get_elem? t.heap address) [
      | none ↦ panic
      | some p ↦ elim (get_elem? p.sessions i) [
        | none ↦ panic
        | some s ↦ ret (choose decode text_of t address p i s choice)
      ]
    ]

-- What follows a turn: a loop that has returned runs its deferred `removePeer`, of the info that
-- the peer had when the loop began.
unfoldable pub after_turn :
    {D E : Type 0} → TcpLayer D E → PeerHostInfo → Turn D E → Outcome (TcpLayer D E)
after_turn t info (continued t') = ret t'
after_turn t info (returned t') = remove_peer t' info
after_turn t info waits = ret t

pub data LayerEvent (D E : Type 0) : Type 0 where
  adding : PeerHostInfo → Result E (TcpPeer E) → LayerEvent D E
  accepting : Result Text (TcpPeer E) → LayerEvent D E
  removing : PeerHostInfo → LayerEvent D E
  at_address : ℕ → Event E → LayerEvent D E
  turning : ℕ → ℕ → PeerHostInfo → Choice → LayerEvent D E
  shutting_down listening_ends : LayerEvent D E

-- A session that does not exist has no loop, and an address without a peer no step.
unfoldable pub has_session : {D E : Type 0} → TcpLayer D E → ℕ → ℕ → Bool
has_session t address i = elim (get_elem? t.heap address) [
  | none ↦ false
  | some p ↦ ltb i (length p.sessions)
]

unfoldable pub layer_step :
    {D E : Type 0}
    → (decode : Text → Option D) → (text_of : PeerError E → Text) → LayerEvent D E
    → TcpLayer D E
    → Outcome (TcpLayer D E)
layer_step decode text_of (adding target connected) t = ret (add_target t target connected).0
layer_step decode text_of (accepting shaken) t = ret (accept t shaken)
layer_step decode text_of (removing target) t = remove_target t target >>= λ (t', e). ret t'
layer_step decode text_of (at_address address e) t =
    if ltb address (length t.heap) then at_peer (step e) address t else ret t
layer_step decode text_of (turning address i info choice) t =
    if has_session t address i
    then (turn decode text_of t address i choice >>= λ turned. after_turn t info turned)
    else ret t
layer_step decode text_of shutting_down t = shutdown t >>= λ (t', e). ret t'
layer_step decode text_of listening_ends t = ret (end_listening t)

unfoldable pub layer_run :
    {D E : Type 0}
    → (decode : Text → Option D) → (text_of : PeerError E → Text) → List (LayerEvent D E)
    → TcpLayer D E
    → Outcome (TcpLayer D E)
layer_run decode text_of [] t = ret t
layer_run decode text_of (e ∷ es) t =
    layer_step decode text_of e t >>= λ t'. layer_run decode text_of es t'
