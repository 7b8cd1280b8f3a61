-- ===== src/P2p/Transport/Sends.antt =====
-- `Send` and `Broadcast` of p2p/communication.go: where a broadcast stops, and what a removal
-- between the check of a target and the read of its peer does.
use conver_go.Base.{
  All, List, Option, Option-cases, Result, Result-cases, Text, [], ap, arith, eq_refl, eqb, err,
  false, get_elem?, has, if-true, inl, inr, keys, length, lookup, none, ok, panic, refl, ret, some,
  subst, suc, sym, take, take-append_drop, text_Eq, true, ℕ, ◌++◌, ◌+◌, ◌∙◌, ◌∷◌, ◌≡◌, ◌≤◌,
}
use conver_go.P2p.Message.{PeerHostInfo, info_Eq}
use conver_go.P2p.Channel.{BroadcastError, failed_target, not_sent, success_targets}
use conver_go.P2p.Transport.Targets.{remove_peer-lookup}
use conver_go.P2p.Transport.{
  TcpLayer, TransportError, broadcast_to, is_peer_present, send, send_between, broadcast,
  connection_error, get_targets, peer_missing, remove_peer,
}

-- With no other step between, a send returns.
send-returns :
    {D E : Type 0} (encode : D → Result E Text) (write : ℕ → Text → Option E) (t : TcpLayer D E)
    (d : D) (target : PeerHostInfo)
    → (r : Result (TransportError E) (ℕ × Text)) × (send encode write t d target ≡ ret r)
unfolding send send_between is_peer_present has
send-returns encode write t d target = elim (Result-cases (encode d)) [
  | inl (e, f) ↦ (err (connection_error e), simp (send, send_between, f))
  | inr (bytes, f) ↦ elim (Option-cases (lookup target t.peers)) [
    | inl g ↦ (err peer_missing, simp (send, send_between, is_peer_present, has, f, g))
    | inr (address, g) ↦ elim (Option-cases (write address bytes)) [
      | inl h ↦ (ok (address, bytes), simp (send, send_between, is_peer_present, has, f, g, h))
      | inr (e, h) ↦
          (err (connection_error e), simp (send, send_between, is_peer_present, has, f, g, h))
    ]
  ]
]

module _ {D E : Type 0} (encode : D → Result E Text) (write : ℕ → Text → Option E)
    (t : TcpLayer D E) (d : D) where
  -- The message was written to a target.
  unfoldable pub Sent : PeerHostInfo → Type 0
  Sent target = (written : ℕ × Text) × (send encode write t d target ≡ ret (ok written))

  -- What a broadcast over some targets comes to: all of them have the message, or one failed at a
  -- position and those before it have it.
  unfoldable Stops :
      List PeerHostInfo
      → ℕ
      → List PeerHostInfo
      → List (ℕ × Text)
      → Option (BroadcastError PeerHostInfo (TransportError E))
      → Type 0
  Stops targets i rest log none = All Sent rest × (length log ≡ length rest)
  Stops targets i rest log (some f) =
      (f.targets ≡ targets)
      × (f.failed_index ≡ i + length log)
      × All Sent (take (length log) rest)
      × ((target : PeerHostInfo) × (get_elem? rest (length log) ≡ some target)
          × (send encode write t d target ≡ ret (err f.cause)))

  Stops-cons :
      (targets : List PeerHostInfo) (i : ℕ) (addr : PeerHostInfo) (rest : List PeerHostInfo)
      (written : ℕ × Text) (log : List (ℕ × Text))
      (failure : Option (BroadcastError PeerHostInfo (TransportError E)))
      → send encode write t d addr ≡ ret (ok written)
      → Stops targets (suc i) rest log failure
      → Stops targets i (addr ∷ rest) (written ∷ log) failure
  unfolding Stops Sent
  Stops-cons targets i addr rest written log none sent (all, e) = (((written, sent), all), ap suc e)
  Stops-cons targets i addr rest written log (some f) sent (same, at, all, failing_target) =
      (same, omega (arith, at), ((written, sent), all), failing_target)

  broadcast_to-Stops :
      (targets : List PeerHostInfo) (i : ℕ) (rest : List PeerHostInfo)
      → (log : List (ℕ × Text)) × (failure : Option
          (BroadcastError PeerHostInfo (TransportError E)))
        × (broadcast_to encode write t d targets i rest ≡ ret (log, failure))
        × Stops targets i rest log failure
  unfolding broadcast_to Stops
  broadcast_to-Stops targets i [] = ([], none, refl, (tt, refl))
  broadcast_to-Stops targets i (addr ∷ rest) =
      let (result, sending) = send-returns encode write t d addr in
      elim (Result-cases result) [
        | inl (cause, e) ↦ (
          [],
          some (record { targets = targets; failed_index = i; cause = cause }),
          simp (broadcast_to, sending, e),
          (refl, omega arith, tt, (addr, refl, sending ∙ ap ret e)),
        )
        | inr (written, e) ↦
            (let (log, failure, ran, good) = broadcast_to-Stops targets (suc i) rest in
              (
                written ∷ log,
                failure,
                simp (broadcast_to, sending, e, ran),
                Stops-cons targets i addr rest written log failure (sending ∙ ap ret e) good,
              ))
      ]

  -- What a broadcast reports: nothing, or a target that failed between those that have the message
  -- and those that do not.
  unfoldable pub Reports :
      List PeerHostInfo → Option (BroadcastError PeerHostInfo (TransportError E)) → Type 0
  Reports targets none = All Sent targets
  Reports targets (some f) =
      (target : PeerHostInfo) × (failed_target f ≡ some target)
      × (send encode write t d target ≡ ret (err f.cause))
      × All Sent (success_targets f)
      × (success_targets f ++ not_sent f ≡ targets)

  Stops-Reports :
      (targets : List PeerHostInfo) (log : List (ℕ × Text))
      (failure : Option (BroadcastError PeerHostInfo (TransportError E)))
      → Stops targets 0 targets log failure
      → Reports targets failure
  unfolding Stops Reports failed_target success_targets not_sent
  Stops-Reports targets log none (all, e) = all
  Stops-Reports targets log (some f) (same, at, all, (target, found, failing_send)) = (
    target,
    ap (λ ts. get_elem? ts f.failed_index) same ∙ ap (get_elem? targets) place ∙ found,
    failing_send,
    subst (λ ts. All Sent ts) (sym (ap (take f.failed_index) same ∙ ap (λ n. take n targets) place))
        all,
    take-append_drop f.failed_index f.targets ∙ same,
  )
    where
      place : f.failed_index ≡ length log
      place = omega (arith, at)

-- A broadcast of a transport that has peers returns, and either every target has the message or the
-- error names the target that failed, with the error of its send: the targets before it have the
-- message, and they and those that are reported as not sent are the targets of the transport.
pub broadcast-Reports :
    {D E : Type 0} (encode : D → Result E Text) (write : ℕ → Text → Option E) (t : TcpLayer D E)
    (d : D)
    → 1 ≤ length t.peers
    → (log : List (ℕ × Text)) × (failure : Option (BroadcastError PeerHostInfo (TransportError E)))
      × (broadcast encode write t d ≡ ret (ok (log, failure)))
      × Reports encode write t d (get_targets t) failure
unfolding broadcast get_targets
broadcast-Reports encode write t d many =
    let some_peer : eqb (length t.peers) 0 ≡ false = ground arith in
    let (log, failure, ran, good) =
      broadcast_to-Stops encode write t d (keys t.peers) 0 (keys t.peers) in
    (
      log,
      failure,
      rw (some_peer, ran) refl,
      Stops-Reports encode write t d (keys t.peers) log failure good,
    )

-- When a target that the check of `Send` met is removed before its peer is read, the send panics,
-- where without the removal it returns.
pub send_between-removed :
    {D E : Type 0} (encode : D → Result E Text) (write : ℕ → Text → Option E) (t t' : TcpLayer D E)
    (d : D) (target : PeerHostInfo) (bytes : Text)
    → encode d ≡ ok bytes
    → is_peer_present t target ≡ true
    → remove_peer t target ≡ ret t'
    → (send_between encode write t t' d target ≡ panic)
      × ((r : Result (TransportError E) (ℕ × Text)) × (send encode write t d target ≡ ret r))
unfolding send_between
send_between-removed encode write t t' d target bytes encoded present removed =
    let gone : lookup target t'.peers ≡ none =
      (remove_peer-lookup t t' target removed).0 target
      ∙ if-true none (lookup target t.peers) (eq_refl target) in
    (simp (send_between, encoded, present, gone), send-returns encode write t d target)
