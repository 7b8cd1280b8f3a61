-- ===== src/P2p/Tests/Connections.antt =====
-- Runs of p2p/peer.go, p2p/communication.go and p2p/hostexhanger.go.
use conver_go.Base.{
  Bool, List, Option, Result, Text, [], arith, codes, eqb, has, if◌then◌else◌, insert, lookup, none,
  ok, panic, refl, remove, ret, some, text_Eq, text_eq, value_or, ℕ, ◌++◌, ◌∷◌, ◌≡◌,
}
use conver_go.P2p.Message.{PeerHostInfo, PeerMessage, user_eq, info_eq, info_Eq, get_peer_metadata}
use conver_go.P2p.Channel.{BroadcastError, new_safe_channel}
use conver_go.P2p.Stream.{
  ByteStreamProcessor, StreamError, header_of, put_uint32, send_byte_on_stream, zeros,
}
use conver_go.P2p.Peer.Reading.{EndsWith, Written, read_loop, read_loop-delivers}
use conver_go.P2p.Peer.{
  TcpPeer, arriving, cancel, close, close_channels, close_session_locked, deliver_message,
  end_active, failing, get_peer_info, handle_read_error, new_recv_session, new_tcp_peer, push_error,
  receive, receiving, report_error, run, send_message, step,
}
use conver_go.P2p.Peer.Channels.{with_session}
use conver_go.P2p.Transport.{
  TcpLayer, TransportError, add_peer, add_target, at_peer, broadcast, broadcast_to, get_targets,
  is_peer_present, new_tcp_transport, peer_exit_topic, remove_peer, send, send_between,
  set_local_msg_factory,
}
use conver_go.P2p.Transport.Sends.{Reports, broadcast-Reports, send_between-removed}
use conver_go.P2p.Transport.Handling.{
  LayerEvent, adding, after_turn, at_address, layer_run, layer_step, returned, shutting_down,
  takes_error, takes_message, turn, turning,
}
use conver_go.P2p.Transport.Handling.Soundness.{FitResult}
use conver_go.P2p.Transport.Handling.Turns.{Fit}
use conver_go.P2p.Transport.Handling.Exits.{handle_read_error-choices}

program : Unit {0}
unfolding lookup insert remove has text_eq user_eq info_eq new_tcp_peer get_peer_info push_error
    close_channels close_session_locked cancel new_recv_session end_active receive send_message
    deliver_message report_error handle_read_error close step run new_tcp_transport new_safe_channel
    is_peer_present send_between send broadcast_to broadcast get_targets add_peer at_peer
    remove_peer add_target layer_step layer_run Fit FitResult after_turn get_peer_metadata
    with_session
program = tt

abbrev ada : PeerHostInfo
ada = record { id = codes "7"; user = record { name = codes "ada"; address = codes ":80" } }

abbrev bob : PeerHostInfo
bob = record { id = codes "8"; user = record { name = codes "bob"; address = codes ":81" } }

abbrev hearing : TcpPeer Text
hearing = value_or new_tcp_peer (run (receiving ∷ arriving (codes "x") ∷ []) new_tcp_peer)

abbrev events : List (LayerEvent Text Text)
events =
    adding bob (ok new_tcp_peer)
    ∷ at_address 0 receiving
    ∷ at_address 0 (failing (codes "e"))
    ∷ turning 0 0 bob takes_error
    ∷ shutting_down
    ∷ []

abbrev two_peers : TcpLayer Text Text
two_peers = add_peer (add_peer new_tcp_transport ada new_tcp_peer) bob new_tcp_peer

abbrev fails_at_one : ℕ → Text → Option Text
fails_at_one address bytes = if eqb address 1 then some (codes "broken") else none

broadcast-Reports_example :
    (log : List (ℕ × Text)) × (failure : Option (BroadcastError PeerHostInfo (TransportError Text)))
    × (broadcast (λ d. ok d) fails_at_one two_peers (codes "hi") ≡ ret (ok (log, failure)))
    × Reports (λ d. ok d) fails_at_one two_peers (codes "hi") (get_targets two_peers) failure
unfolding program
broadcast-Reports_example =
    broadcast-Reports (λ d. ok d) fails_at_one two_peers (codes "hi") (omega arith)

abbrev without_bob : TcpLayer Text Text
without_bob = value_or new_tcp_transport (remove_peer two_peers bob)

send_between-removed_example :
    (send_between (λ d. ok d) fails_at_one two_peers without_bob (codes "hi") bob ≡ panic)
    × ((r : Result (TransportError Text) (ℕ × Text)) × (send
            (λ d. ok d)
            fails_at_one
            two_peers
            (codes "hi")
            bob
          ≡ ret r))
unfolding program
send_between-removed_example =
    send_between-removed (λ d. ok d) fails_at_one two_peers without_bob (codes "hi") bob
      (codes "hi") refl refl refl

abbrev one_reader : TcpLayer PeerMessage Text
one_reader =
    add_peer (set_local_msg_factory new_tcp_transport (λ header. some header)) bob
      (value_or new_tcp_peer (receive new_tcp_peer))

abbrev after_error : TcpLayer PeerMessage Text
after_error = value_or new_tcp_transport (at_peer (handle_read_error (codes "e")) 0 one_reader)

handle_read_error-choices_example :
    (turn (λ bytes. none) (λ e. codes "lost") after_error 0 0 takes_message
      ≡ ret (returned after_error))
    × ((u : TcpLayer PeerMessage Text) × (turn
            (λ bytes. none)
            (λ e. codes "lost")
            after_error
            0
            0
            takes_error
          ≡ ret (returned u))
        × (u.msg_ch.sent
            ≡ after_error.msg_ch.sent
              ++ (get_peer_metadata peer_exit_topic
                    (codes "lost")
                    (get_peer_info (new_tcp_peer {E = Text}))
                    []
                  ∷ [])))
unfolding program set_local_msg_factory
handle_read_error-choices_example =
    handle_read_error-choices (λ bytes. none) (λ e. codes "lost") one_reader after_error 0 0
      (value_or new_tcp_peer (receive new_tcp_peer)) new_recv_session (codes "e")
      (λ header. some header)
      (get_peer_metadata peer_exit_topic (codes "lost") (get_peer_info (new_tcp_peer {E = Text}))
        [])
      refl refl refl refl refl refl refl refl refl refl refl

abbrev dialled : TcpLayer Text Text
dialled = add_peer new_tcp_transport ada new_tcp_peer

abbrev framing : ByteStreamProcessor
framing = record { header_size_byte = 4; max_message_byte = 9 }

abbrev stream : List ℕ
stream = 0 ∷ 0 ∷ 0 ∷ 2 ∷ 104 ∷ 105 ∷ 0 ∷ 0 ∷ 0 ∷ 1 ∷ 33 ∷ []

abbrev listening : TcpPeer StreamError
listening = value_or new_tcp_peer (receive new_tcp_peer)

read_loop-delivers_example :
    (r : TcpPeer StreamError × Bool) × (read_loop 3 framing stream listening ≡ ret r)
    × EndsWith 0 (codes "hi" ∷ codes "!" ∷ []) r
unfolding program Written send_byte_on_stream header_of put_uint32 zeros
read_loop-delivers_example =
    read_loop-delivers framing (codes "hi" ∷ codes "!" ∷ []) stream listening 0 new_recv_session
      (omega arith) (omega arith) (omega arith, (omega arith, tt))
      (
        0 ∷ 0 ∷ 0 ∷ 2 ∷ 104 ∷ 105 ∷ [],
        0 ∷ 0 ∷ 0 ∷ 1 ∷ 33 ∷ [],
        refl,
        refl,
        (0 ∷ 0 ∷ 0 ∷ 1 ∷ 33 ∷ [], [], refl, refl, refl),
      )
      refl refl refl refl (omega arith)
