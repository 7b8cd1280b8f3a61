-- ===== src/P2p/Tests/Handshakes.antt =====
-- Runs of p2p/hostexhanger.go.
use conver_go.Base.{Result, Text, [], codes, err, ok, ◌↔◌, ◌∷◌, ◌≡◌}
use conver_go.P2p.Message.{PeerHostInfo, PeerMessage, get_peer_metadata}
use conver_go.P2p.Handshake.{Exchanger, message, name_message, wait_for_target_peer_name}
use conver_go.P2p.Handshake.Agreement.{Happen, Reads}
use conver_go.P2p.Handshake.Checks.{wait_for_target_peer_name-accepts}

program : Unit {0}
unfolding Reads Happen name_message get_peer_metadata
program = tt

abbrev carol : PeerHostInfo
carol = record { id = codes "9"; user = record { name = codes "carol"; address = codes ":82" } }

abbrev dave : PeerHostInfo
dave = record { id = codes "10"; user = record { name = codes "dave"; address = codes ":83" } }

-- A codec for the names of two parties: a message is its number.
abbrev read_number : PeerHostInfo → Text → Result Text PeerMessage
read_number other [] = err (codes "no number")
read_number other (n ∷ rest) = ok (name_message other n)

abbrev exchanger : PeerHostInfo → PeerHostInfo → Exchanger Text
exchanger own other = record {
  local_info = own;
  encode = λ m. ok (m.fields.seq_no ∷ []);
  decode = read_number other;
}

wait_for_target_peer_name-accepts_example :
    (wait_for_target_peer_name (exchanger carol dave) (message (2 ∷ [])) 2 ≡ ok dave) ↔ (
      (msg : PeerMessage) × ((exchanger carol dave).decode (2 ∷ []) ≡ ok msg)
      × (msg.fields.seq_no ≡ 2)
      × (msg.info ≡ dave))
wait_for_target_peer_name-accepts_example =
    wait_for_target_peer_name-accepts (exchanger carol dave) 2 (2 ∷ []) dave
