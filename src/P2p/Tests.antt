-- ===== src/P2p/Tests.antt =====
-- Runs of p2p/message.go and p2p/session.go.
mod Connections
mod Handshakes
use conver_go.Base.{[], codes, false, insert, lookup, refl, some, text_Eq, text_eq, ℕ, ◌≡◌}
use conver_go.P2p.Message.{
  PeerHostInfo, PeerMessage, format_info, parse_host_info_from_str, prepend, split, info_of_parts,
  create_new_host_info,
}
use conver_go.P2p.Message.Format.{Plain, parse-format_info}
use conver_go.P2p.Session.{
  Session, Broker, delivering, session_at, dispatch_message, handlers_of, new_broker,
  create_session_locked, session_initiator, starting_seq_no,
}
use conver_go.P2p.Session.Consumers.{
  IsConsistent, new_broker-IsConsistent, create_session_locked-IsConsistent,
  dispatch_message-IsConsistent,
}

program : Unit {0}
unfolding Plain lookup insert text_eq session_at dispatch_message handlers_of new_broker
    create_session_locked starting_seq_no split prepend info_of_parts create_new_host_info
    parse_host_info_from_str
program = tt

abbrev ada : PeerHostInfo
ada = record { id = codes "7"; user = record { name = codes "ada"; address = codes ":80" } }

parse-format_info_example : parse_host_info_from_str (format_info ada) (codes "Client") ≡ some ada
unfolding program
parse-format_info_example =
    parse-format_info ada (codes "Client") (refl, tt) (refl, (refl, (refl, tt)))
      (refl, (refl, (refl, tt)))

abbrev message : ℕ → PeerMessage
message n = record {
  is_error = [];
  info = ada;
  fields = record { topic_name = codes "edit"; session_id = codes "s"; seq_no = n };
  payload = [];
}

-- A broker of handlers that are numbers, with one open session.
abbrev one_session : Broker ℕ
one_session = (create_session_locked (new_broker 4) (codes "edit") session_initiator (codes "s")).0

one_session-IsConsistent : IsConsistent one_session
one_session-IsConsistent =
    create_session_locked-IsConsistent (new_broker 4) (codes "edit") session_initiator (codes "s")
      (new_broker-IsConsistent ℕ 4)

abbrev opened : Session
opened = record {
  id = codes "s";
  topic = codes "edit";
  queue_size = 4;
  recv = [];
  current_seq_no = 0;
  is_closed = false;
}

dispatch_message-IsConsistent_example :
    IsConsistent (dispatch_message one_session (message 1)).0
    × ((address : ℕ)
        → (dispatch_message one_session (message 1)).1 ≡ delivering address
        → (s : Session) × (session_at one_session address ≡ some s)
          × (s.id ≡ codes "s")
          × (s.is_closed ≡ false))
dispatch_message-IsConsistent_example =
    dispatch_message-IsConsistent one_session (message 1) one_session-IsConsistent
