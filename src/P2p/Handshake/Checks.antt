-- ===== src/P2p/Handshake/Checks.antt =====
-- Which messages a wait of p2p/hostexhanger.go accepts.
use conver_go.Base.{
  Bool-cases, Result-cases, Text, ap, arith, eqb, eqb_iff, err, if-false, if-true, if◌then◌else◌,
  inl, inr, none, ok, ok_inj, ok_ne_err, some, sym, text_Eq, text_eq, ℕ, ◌↔◌, ◌∙◌, ◌≡◌,
}
use conver_go.P2p.Message.{PeerHostInfo, PeerMessage}
use conver_go.P2p.Handshake.{
  Exchanger, check_msg_validity, message, name_of_message, out_of_sequence, tcp_host_exchanger,
  wait_for_target_peer_name, failed,
}

check_lem :
    {E : Type 0} (n k : ℕ)
    → check_msg_validity {E = E} n k tcp_host_exchanger
      ≡ (if eqb k n then none else some (out_of_sequence n k))
unfolding check_msg_validity text_eq
check_lem n k = ground arith

accepted :
    {E : Type 0} (ex : Exchanger E) (n : ℕ) (bytes : Text) (msg : PeerMessage)
    → ex.decode bytes ≡ ok msg
    → name_of_message ex n bytes
      ≡ (if eqb msg.fields.seq_no n then ok msg.info else err (out_of_sequence n msg.fields.seq_no))
unfolding name_of_message
accepted ex n bytes msg read = elim (Bool-cases (eqb msg.fields.seq_no n)) [
  | inl e ↦ simp (name_of_message, read, check_lem n msg.fields.seq_no, e)
  | inr e ↦ simp (name_of_message, read, check_lem n msg.fields.seq_no, e)
]

undecoded :
    {E : Type 0} (ex : Exchanger E) (n : ℕ) (bytes : Text) (e : E)
    → ex.decode bytes ≡ err e
    → name_of_message ex n bytes ≡ err (failed e)
unfolding name_of_message
undecoded ex n bytes e read = simp (name_of_message, read)

-- A wait that has a message accepts it, with an info, exactly when it decodes to a message of that
-- info with the expected sequence number; its topic may be any.
pub wait_for_target_peer_name-accepts :
    {E : Type 0} (ex : Exchanger E) (n : ℕ) (bytes : Text) (info : PeerHostInfo)
    → (wait_for_target_peer_name ex (message bytes) n ≡ ok info) ↔ (
        (msg : PeerMessage) × (ex.decode bytes ≡ ok msg)
        × (msg.fields.seq_no ≡ n)
        × (msg.info ≡ info))
unfolding wait_for_target_peer_name
wait_for_target_peer_name-accepts ex n bytes info = (
  λ h. elim (Result-cases (ex.decode bytes)) [
    | inl (e, f) ↦ absurd (ok_ne_err (sym (undecoded ex n bytes e f) ∙ h))
    | inr (msg, f) ↦ elim (Bool-cases (eqb msg.fields.seq_no n)) [
      | inl g ↦
          (msg, f, (eqb_iff _ _).0 g, ok_inj (sym (accepted ex n bytes msg f ∙ if-true _ _ g) ∙ h))
      | inr g ↦ absurd (
          ok_ne_err (
            sym (
              accepted ex n bytes msg f
              ∙ if-false (ok msg.info) (err (out_of_sequence n msg.fields.seq_no)) g)
            ∙ h))
    ]
  ],
  λ (msg, read, same, whose).
      accepted ex n bytes msg read ∙ if-true _ _ ((eqb_iff _ _).1 same) ∙ ap ok whose,
)
