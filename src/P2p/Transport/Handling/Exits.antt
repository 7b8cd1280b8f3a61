-- ===== src/P2p/Transport/Handling/Exits.antt =====
-- How a loop of `handlePeer` of p2p/communication.go ends, and what it leaves among the targets.
use conver_go.Base.{
  Option, Text, [], ap, false, get_elem?, get_elem?-set_self, lt-length, refl, ret, ret_inj, set,
  some, subst, sym, text_Eq, true, ℕ, ◌++◌, ◌∙◌, ◌∷◌, ◌≡◌,
}
use conver_go.P2p.Message.{PeerMessage, get_peer_metadata}
use conver_go.P2p.Channel.{send_value}
use conver_go.P2p.Peer.{
  PeerError, RecvSession, TcpPeer, get_peer_info, handle_read_error, push_error, read_error,
}
use conver_go.P2p.Peer.Channels.{shut}
use conver_go.P2p.Peer.Runs.{reported, broken, broken_peer, read_error-broken}
use conver_go.P2p.Transport.{
  TcpLayer, at_peer, peer_exit_topic, construct_and_send_meta_msg, send_meta_msg,
}
use conver_go.P2p.Transport.Handling.{
  returned, takes_error, takes_message, turn, choose, take_error, with_recv_session, exit_with,
}

-- The two cases of the `select` on a closed session that holds one error.
broken-choices :
    {D E : Type 0} (decode : Text → Option D) (text_of : PeerError E → Text) (t : TcpLayer D E)
    (address i : ℕ) (q : TcpPeer E) (s : RecvSession E) (e : PeerError E)
    (factory : PeerMessage → Option D) (env : D)
    → get_elem? t.heap address ≡ some q
    → get_elem? q.sessions i ≡ some s
    → s.is_closed ≡ true
    → s.messages ≡ []
    → s.errors ≡ e ∷ []
    → t.shutdown_flag.is_shut_down ≡ false
    → t.msg_ch.closed ≡ false
    → t.local_msg_factory ≡ some factory
    → factory (get_peer_metadata peer_exit_topic (text_of e) (get_peer_info q) []) ≡ some env
    → (turn decode text_of t address i takes_message ≡ ret (returned t))
      × ((u : TcpLayer D E) × (turn decode text_of t address i takes_error ≡ ret (returned u))
          × (u.msg_ch.sent ≡ t.msg_ch.sent ++ (env ∷ [])))
unfolding turn choose exit_with construct_and_send_meta_msg send_meta_msg send_value
    with_recv_session
broken-choices decode text_of t address i q s e factory env found session shut none_yet one running
      not_closed made exit_made =
    (
      simp (turn, choose, running, found, session, shut, none_yet),
      (
        construct_and_send_meta_msg (with_recv_session t address q i (take_error s))
            (get_peer_metadata peer_exit_topic (text_of e) (get_peer_info q) []),
        simp (turn, choose, exit_with, running, found, session, one),
        simp (
          construct_and_send_meta_msg, send_meta_msg, send_value, with_recv_session, made,
          exit_made, running, not_closed,
        ),
      ),
    )

-- When the connection of a peer fails and its session holds no message and no error yet, both cases of
-- the `select` of its loop are ready: one ends the loop with the exit of the peer handed over as the
-- last message, the other ends it without a message. The transport is not shut down, its channel is
-- open and its factory makes a message of the exit.
pub handle_read_error-choices :
    {D E : Type 0} (decode : Text → Option D) (text_of : PeerError E → Text) (t t' : TcpLayer D E)
    (address i : ℕ) (p : TcpPeer E) (s : RecvSession E) (e : E) (factory : PeerMessage → Option D)
    (env : D)
    → get_elem? t.heap address ≡ some p
    → p.active ≡ some i
    → get_elem? p.sessions i ≡ some s
    → s.is_closed ≡ false
    → s.messages ≡ []
    → s.errors ≡ []
    → t.shutdown_flag.is_shut_down ≡ false
    → t.msg_ch.closed ≡ false
    → t.local_msg_factory ≡ some factory
    → factory (get_peer_metadata peer_exit_topic (text_of (read_error e)) (get_peer_info p) [])
      ≡ some env
    → at_peer (handle_read_error e) address t ≡ ret t'
    → (turn decode text_of t' address i takes_message ≡ ret (returned t'))
      × ((u : TcpLayer D E) × (turn decode text_of t' address i takes_error ≡ ret (returned u))
          × (u.msg_ch.sent ≡ t'.msg_ch.sent ++ (env ∷ [])))
unfolding at_peer broken broken_peer get_peer_info shut reported push_error
handle_read_error-choices {D} {E} decode text_of t t' address i p s e factory env found a session
      fresh none_yet clean running not_closed made exit_made failed =
    let t1 = record t { heap = set t.heap address (broken_peer e p i s) } in
    let same : t1 ≡ t' =
      ret_inj (sym (simp (at_peer, found, read_error-broken e p i s a session fresh)) ∙ failed) in
    subst
      (λ v.
        (turn decode text_of v address i takes_message ≡ ret (returned v))
        × ((u : TcpLayer D E) × (turn decode text_of v address i takes_error ≡ ret (returned u))
            × (u.msg_ch.sent ≡ v.msg_ch.sent ++ (env ∷ []))))
      same
      (broken-choices decode text_of t1 address i (broken_peer e p i s) (broken e s) (read_error e)
        factory env
        (get_elem?-set_self t.heap address (broken_peer e p i s) (lt-length t.heap address found))
        (get_elem?-set_self p.sessions i (broken e s) (lt-length p.sessions i session)) refl
        none_yet (ap (λ errors. push_error (some (read_error e)) errors) clean) running not_closed
        made exit_made)

fst : {A B : Type 0} → A × B → A
fst p = p.0

snd : {A B : Type 0} → A × B → B
snd p = p.1
