-- ===== src/P2p/Session/Sending.antt =====
-- One session of p2p/session.go: the numbers of what it sends, and what it accepts.
use conver_go.Base.{
  List, Option, Text, [], arith, err, false, none, ok, refl, some, ℕ, ◌%◌, ◌+◌, ◌^◌, ◌∷◌, ◌≡◌, ◌≢◌,
}
use conver_go.P2p.Message.{PeerMessage}
use conver_go.P2p.Session.{Session, out_of_order, next_seq_no, setup_sending_msg, receive, wait_on}

-- What a session hands to the transport for a sequence of sends; `none` where one is refused.
unfoldable pub sent : Session → List PeerMessage → Option (List PeerMessage)
sent s [] = some []
sent s (msg ∷ msgs) =
    let (s', prepared) = setup_sending_msg {E = Unit {0}} s msg in
    let rest = sent s' msgs in
    elim prepared [
      | err e ↦ none
      | ok data_msg ↦ elim rest [ none ↦ none | some others ↦ some (data_msg ∷ others) ]
    ]

-- The messages with the topic and the id of a session, numbered from a number on.
pub numbered : Text → Text → ℕ → List PeerMessage → List PeerMessage
numbered topic id n [] = []
numbered topic id n (msg ∷ msgs) =
    record msg { fields = record { topic_name = topic; session_id = id; seq_no = n } }
    ∷ numbered topic id ((n + 1) % 2 ^ 32) msgs

-- An open session sends every message under its own topic and id, numbered one by one from its
-- current number, modulo 2^32.
pub sent_lem :
    (s : Session) (msgs : List PeerMessage)
    → s.is_closed ≡ false
    → sent s msgs ≡ some (numbered s.topic s.id s.current_seq_no msgs)
unfolding sent numbered setup_sending_msg next_seq_no
sent_lem s [] h = refl
sent_lem s (m ∷ ms) h =
    ground (arith, h, sent_lem (record s { current_seq_no = next_seq_no s.current_seq_no }) ms h)

-- `WaitOn` leaves the number that an open session expects as it is: of two messages at the front
-- of its buffer, the first with that number and the second with another, the first is handed out,
-- and the second is dropped as out of order by the next `WaitOn`.
pub wait_on_twice :
    (s : Session) (first second : PeerMessage) (rest : List PeerMessage)
    → s.is_closed ≡ false
    → s.recv ≡ first ∷ second ∷ rest
    → first.fields.seq_no ≡ s.current_seq_no
    → second.fields.seq_no ≢ s.current_seq_no
    → ((wait_on {E = Unit {0}} s).1 ≡ ok first)
      × ((wait_on {E = Unit {0}} (wait_on {E = Unit {0}} s).0).1 ≡ err out_of_order)
      × ((wait_on {E = Unit {0}} (wait_on {E = Unit {0}} s).0).0 ≡ record s { recv = rest })
unfolding wait_on receive
wait_on_twice s first second rest opened buffer h k = ground (arith, opened, buffer, h, k)
