-- ===== src/P2p/Handshake/Agreement.antt =====
-- Two parties of p2p/hostexhanger.go over one connection: what each has at its end.
use conver_go.Base.{List, Option, Text, [], none, ok, suc, text_Eq, zero, ℕ, ◌++◌, ◌∷◌, ◌≡◌}
use conver_go.P2p.Handshake.{
  Exchanger, HandshakeRole, Phase, awaiting_name, begin, initiator, message, receiver, resume,
  awaiting_ack, finished, name_message,
}

-- A connection between two parties: the messages on their way to each, and where each stands.
pub record Link (E : Type 0) : Type 0 where
  pub to_initiator : List Text
  pub to_receiver : List Text
  pub initiator_phase : Phase E
  pub receiver_phase : Phase E

-- A write on a connection that works.
abbrev pub works : {E : Type 0} → Text → Option E
works bytes = none

-- A party takes the next message, if one is there.
unfoldable pub turn_of_initiator : {E : Type 0} → Exchanger E → List Text → Link E → Link E
turn_of_initiator ex [] l = l
turn_of_initiator ex (bytes ∷ rest) l =
    let (sent, phase) = resume ex works [] initiator l.initiator_phase (message bytes) in
    record l { to_initiator = rest; to_receiver = l.to_receiver ++ sent; initiator_phase = phase }

unfoldable pub turn_of_receiver : {E : Type 0} → Exchanger E → List Text → Link E → Link E
turn_of_receiver ex [] l = l
turn_of_receiver ex (bytes ∷ rest) l =
    let (sent, phase) = resume ex works [] receiver l.receiver_phase (message bytes) in
    record l { to_receiver = rest; to_initiator = l.to_initiator ++ sent; receiver_phase = phase }

module _ {E : Type 0} (ex_i ex_r : Exchanger E) where
  unfoldable pub turn : HandshakeRole → Link E → Link E
  turn initiator l = turn_of_initiator ex_i l.to_initiator l
  turn receiver l = turn_of_receiver ex_r l.to_receiver l

  -- Both parties have begun.
  unfoldable pub begun : Link E
  begun =
      let (sent, phase) = begin ex_r works [] receiver in
      record {
        to_initiator = sent;
        to_receiver = [];
        initiator_phase = awaiting_name;
        receiver_phase = phase;
      }

  unfoldable pub exchange : List HandshakeRole → Link E → Link E
  exchange [] l = l
  exchange (role ∷ roles) l = exchange roles (turn role l)

-- The turns of a list happen, in its order, among others.
unfoldable pub Happen : List HandshakeRole → List HandshakeRole → Type 0
Happen [] roles = Unit {0}
Happen (initiator ∷ turns) [] = ⊥
Happen (receiver ∷ turns) [] = ⊥
Happen (initiator ∷ turns) (initiator ∷ roles) = Happen turns roles
Happen (initiator ∷ turns) (receiver ∷ roles) = Happen (initiator ∷ turns) roles
Happen (receiver ∷ turns) (receiver ∷ roles) = Happen turns roles
Happen (receiver ∷ turns) (initiator ∷ roles) = Happen (receiver ∷ turns) roles

-- What the one end writes in the exchange, the other reads.
unfoldable pub Reads : {E : Type 0} → Exchanger E → Exchanger E → Type 0
Reads writer reader =
    (n : ℕ)
    → (bytes : Text) × (writer.encode (name_message writer.local_info n) ≡ ok bytes)
      × (reader.decode bytes ≡ ok (name_message writer.local_info n))

-- The bytes of the message with a number.
written_name : {E : Type 0} (writer reader : Exchanger E) → Reads writer reader → ℕ → Text
unfolding Reads
written_name writer reader reads n = (reads n).0

module _ {E : Type 0} (ex_i ex_r : Exchanger E) (to_r : Reads ex_i ex_r)
    (to_i : Reads ex_r ex_i) where
  -- The states that two parties pass through.
  stage : ℕ → Link E
  stage zero = record {
    to_initiator = written_name ex_r ex_i to_i 0 ∷ [];
    to_receiver = [];
    initiator_phase = awaiting_name;
    receiver_phase = awaiting_name;
  }
  stage (suc zero) = record {
    to_initiator = [];
    to_receiver = written_name ex_i ex_r to_r 1 ∷ [];
    initiator_phase = awaiting_ack ex_r.local_info;
    receiver_phase = awaiting_name;
  }
  stage (suc (suc zero)) = record {
    to_initiator = written_name ex_r ex_i to_i 2 ∷ [];
    to_receiver = [];
    initiator_phase = awaiting_ack ex_r.local_info;
    receiver_phase = finished (ok ex_i.local_info);
  }
  stage (suc (suc (suc n))) = record {
    to_initiator = [];
    to_receiver = [];
    initiator_phase = finished (ok ex_r.local_info);
    receiver_phase = finished (ok ex_i.local_info);
  }
