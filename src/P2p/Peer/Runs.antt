-- ===== src/P2p/Peer/Runs.antt =====
-- The steps of a peer of p2p/peer.go over every list of events: none of them panics.
use conver_go.Base.{
  Bool-cases, List, Option-cases, Text, [], ap, arith, false, get_elem?, get_elem?-set_self,
  if◌then◌else◌, inl, inr, length, lt-length, ltb, none, refl, ret, set, some, suc, true, zero, ℕ,
  ◌++◌, ◌∙◌, ◌∷◌, ◌≡◌,
}
use conver_go.P2p.Peer.{
  Event, RecvSession, TcpPeer, arriving, cancel, close, close_session_locked, closing,
  context_ended, context_ends, deliver_message, failing, handle_read_error, is_active,
  message_capacity, new_tcp_peer, push_error, read_error, receiving, report_error, run,
  send_message, step, watch, watching,
}
use conver_go.P2p.Peer.Channels.{
  IsLive, Returns, cancel-IsLive, close_session_locked-IsLive, receive-IsLive, set-IsLive,
  close_session_locked-open, shut,
}

watch-IsLive : {E : Type 0} (i : ℕ) (p : TcpPeer E) → IsLive p → Returns (watch i p)
unfolding watch
watch-IsLive i p h = elim (Bool-cases (is_active i p)) [
  | inl e ↦
      (let (p', closing_eq, live, idle) = close_session_locked-IsLive (some context_ended) p h in
        (p', simp (watch, e, closing_eq), live))
  | inr e ↦ (p, simp (watch, e), h)
]

pub close_peer-IsLive : {E : Type 0} (p : TcpPeer E) → IsLive p → Returns (close p)
unfolding close
close_peer-IsLive p h = elim (Bool-cases p.is_closed) [
  | inl e ↦ (p, simp (close, e), h)
  | inr e ↦
      (let (p', closing_eq, live, idle) = close_session_locked-IsLive none p h in
        (
          record p' { is_closed = true },
          simp (close, e, closing_eq),
          record { active_open = live.active_open; open_active = live.open_active },
        ))
]

-- The session with a read error reported.
unfoldable pub reported : {E : Type 0} → E → RecvSession E → RecvSession E
reported e s = record s { errors = push_error (some (read_error e)) s.errors }

pub reported-open :
    {E : Type 0} (e : E) (s : RecvSession E) → (reported e s).is_closed ≡ s.is_closed
unfolding reported
reported-open e s = refl

pub handle_read_error-open :
    {E : Type 0} (e : E) (p : TcpPeer E) (i : ℕ) (s : RecvSession E)
    → p.active ≡ some i
    → get_elem? p.sessions i ≡ some s
    → s.is_closed ≡ false
    → handle_read_error e p
      ≡ close_session_locked none (record p { sessions = set p.sessions i (reported e s) })
unfolding handle_read_error report_error reported
handle_read_error-open e p i s a found fresh =
    simp (handle_read_error, report_error, reported, a, found, fresh)

handle_read_error-IsLive :
    {E : Type 0} (e : E) (p : TcpPeer E) → IsLive p → Returns (handle_read_error e p)
unfolding handle_read_error
handle_read_error-IsLive e p h = elim (Option-cases p.active) [
  | inl a ↦ (p, simp (handle_read_error, a), h)
  | inr (i, a) ↦
      (let (s, found, fresh) = h.active_open i a in
        let (p', closing_eq, live, idle) =
          close_session_locked-IsLive none (record p { sessions = set p.sessions i (reported e s) })
            (set-IsLive p i s (reported e s) h found (reported-open e s)) in
        (p', handle_read_error-open e p i s a found fresh ∙ closing_eq, live))
]

-- What the channel of messages makes of one more.
offered : {E : Type 0} → Text → RecvSession E → RecvSession E
offered msg s =
    if ltb (length s.messages) message_capacity
    then record s { messages = s.messages ++ (msg ∷ []) }
    else s

offered-open :
    {E : Type 0} (msg : Text) (s : RecvSession E) → (offered msg s).is_closed ≡ s.is_closed
unfolding offered
offered-open msg s = ground arith

deliver_message-open :
    {E : Type 0} (msg : Text) (p : TcpPeer E) (i : ℕ) (s : RecvSession E)
    → p.active ≡ some i
    → get_elem? p.sessions i ≡ some s
    → s.is_done ≡ false
    → s.is_closed ≡ false
    → step (arriving msg) p ≡ ret (record p { sessions = set p.sessions i (offered msg s) })
unfolding step deliver_message send_message offered
deliver_message-open msg p i s a found lasts fresh =
    elim (Bool-cases (ltb (length s.messages) message_capacity)) [
      | inl room ↦ simp (step, deliver_message, send_message, offered, a, found, lasts, fresh, room)
      | inr full ↦ simp (step, deliver_message, send_message, offered, a, found, lasts, fresh, full)
    ]

deliver_message-done :
    {E : Type 0} (msg : Text) (p : TcpPeer E) (i : ℕ) (s : RecvSession E)
    → p.active ≡ some i
    → get_elem? p.sessions i ≡ some s
    → s.is_done ≡ true
    → (p' : TcpPeer E) → close_session_locked (some context_ended) p ≡ ret p'
    → step (arriving msg) p ≡ ret p'
unfolding step deliver_message
deliver_message-done msg p i s a found done p' closing_eq =
    simp (step, deliver_message, a, found, done, closing_eq)

deliver_message-IsLive :
    {E : Type 0} (msg : Text) (p : TcpPeer E) → IsLive p → Returns (step (arriving msg) p)
unfolding step deliver_message
deliver_message-IsLive msg p h = elim (Option-cases p.active) [
  | inl a ↦ (p, simp (step, deliver_message, a), h)
  | inr (i, a) ↦
      (let (s, found, fresh) = h.active_open i a in
        elim (Bool-cases s.is_done) [
          | inl done ↦
              (let (p', closing_eq, live, idle) =
                  close_session_locked-IsLive (some context_ended) p h in
                (p', deliver_message-done msg p i s a found done p' closing_eq, live))
          | inr lasts ↦ (
            record p { sessions = set p.sessions i (offered msg s) },
            deliver_message-open msg p i s a found lasts fresh,
            set-IsLive p i s (offered msg s) h found (offered-open msg s),
          )
        ])
]

pub step-IsLive : {E : Type 0} (e : Event E) (p : TcpPeer E) → IsLive p → Returns (step e p)
unfolding step
step-IsLive receiving p h = receive-IsLive p h
step-IsLive closing p h = close_peer-IsLive p h
step-IsLive (context_ends i) p h = (cancel i p, refl, cancel-IsLive i p h)
step-IsLive (watching i) p h = watch-IsLive i p h
step-IsLive (arriving msg) p h = deliver_message-IsLive msg p h
step-IsLive (failing e) p h = handle_read_error-IsLive e p h

pub run-IsLive : {E : Type 0} (es : List (Event E)) (p : TcpPeer E) → IsLive p → Returns (run es p)
unfolding run
run-IsLive [] p h = (p, refl, h)
run-IsLive (e ∷ es) p h =
    let (p', stepped, live) = step-IsLive e p h in
    let (q, ran, good) = run-IsLive es p' live in (q, simp (run, stepped, ran), good)

-- The session that a read error leaves, and its peer.
unfoldable pub broken : {E : Type 0} → E → RecvSession E → RecvSession E
broken e s = shut none (reported e s)

unfoldable pub broken_peer : {E : Type 0} → E → TcpPeer E → ℕ → RecvSession E → TcpPeer E
broken_peer e p i s = record p { sessions = set p.sessions i (broken e s); active = none }

set-set : {A : Type 0} (xs : List A) (i : ℕ) (v w : A) → set (set xs i v) i w ≡ set xs i w
set-set [] i v w = refl
set-set (x ∷ xs) zero v w = refl
set-set (x ∷ xs) (suc i) v w = ap (◌∷◌ x) (set-set xs i v w)

pub read_error-broken :
    {E : Type 0} (e : E) (p : TcpPeer E) (i : ℕ) (s : RecvSession E)
    → p.active ≡ some i
    → get_elem? p.sessions i ≡ some s
    → s.is_closed ≡ false
    → handle_read_error e p ≡ ret (broken_peer e p i s)
unfolding broken broken_peer
read_error-broken e p i s a found fresh =
    handle_read_error-open e p i s a found fresh
    ∙ close_session_locked-open none (record p { sessions = set p.sessions i (reported e s) }) i
        (reported e s) a
        (get_elem?-set_self p.sessions i (reported e s) (lt-length p.sessions i found))
        (reported-open e s ∙ fresh)
    ∙ ap (λ sessions. ret (record p { sessions = sessions; active = none }))
        (set-set p.sessions i (reported e s) (broken e s))

pub new_tcp_peer-IsLive : {E : Type 0} → IsLive (new_tcp_peer {E = E})
unfolding new_tcp_peer
new_tcp_peer-IsLive = record { active_open = λ i a. cc; open_active = λ i s found fresh. cc }
