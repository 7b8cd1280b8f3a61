-- ===== src/P2p/Session/Consumers.antt =====
-- The `consumers` of a broker of p2p/session.go: the sessions that a message can reach.
use conver_go.Base.{
  Bool-cases, List, Option-cases, Text, [], ap, arith, eqb, false, get_elem?, if-false, if-true,
  inl, inr, length, lookup, lookup-insert, lookup-remove, none, refl, some, subst, suc, sym,
  text_Eq, text_eq_iff, true, zero, ℕ, ◌++◌, ◌==◌, ◌∙◌, ◌∷◌, ◌≡◌, ◌≢◌,
}
use conver_go.P2p.Message.{PeerMessage}
use conver_go.P2p.Session.{
  new_broker, Dispatch, dropped, started, create_sessions, dispatch_message, delivering,
  handlers_of, session_receiver, Session, Broker, SessionRole, session_at, set_at,
  create_session_locked, remove_session, close_session, close, starting_seq_no,
}

-- Every consumer is an open session with the id that it is found under.
pub IsConsistent : {H : Type 0} → Broker H → Type 0
IsConsistent b =
    (id : Text) (address : ℕ)
    → lookup id b.consumers ≡ some address
    → (s : Session) × (session_at b address ≡ some s) × (s.id ≡ id) × (s.is_closed ≡ false)

get-append :
    (heap : List Session) (s : Session) → get_elem? (heap ++ (s ∷ [])) (length heap) ≡ some s
get-append [] s = refl
get-append (t ∷ heap) s = get-append heap s

get-append_old :
    (heap : List Session) (s : Session) (i : ℕ) (t : Session)
    → get_elem? heap i ≡ some t
    → get_elem? (heap ++ (s ∷ [])) i ≡ some t
get-append_old [] s i t h = ground (arith, h)
get-append_old (u ∷ heap) s zero t h = h
get-append_old (u ∷ heap) s (suc i) t h = get-append_old heap s i t h

get-set_at :
    (heap : List Session) (s : Session) (i j : ℕ)
    → i ≢ j
    → get_elem? (set_at i s heap) j ≡ get_elem? heap j
unfolding set_at
get-set_at [] s i j h = refl
get-set_at (t ∷ heap) s zero zero h = absurd (h refl)
get-set_at (t ∷ heap) s zero (suc j) h = refl
get-set_at (t ∷ heap) s (suc i) zero h = refl
get-set_at (t ∷ heap) s (suc i) (suc j) h = get-set_at heap s i j (omega (arith, h))

pub create_session_locked-IsConsistent :
    {H : Type 0} (b : Broker H) (topic : Text) (role : SessionRole) (id : Text)
    → IsConsistent b
    → IsConsistent (create_session_locked b topic role id).0
unfolding IsConsistent session_at create_session_locked
create_session_locked-IsConsistent b topic role id wf i address h = elim (Bool-cases (id == i)) [
  | inl e ↦
      let at_end : length b.heap ≡ address =
        ground (arith, h, e, lookup-insert id i (length b.heap) b.consumers) in
      (
        record {
          id = id;
          topic = topic;
          queue_size = b.queue_size;
          recv = [];
          current_seq_no = starting_seq_no role;
          is_closed = false;
        },
        rw (sym at_end) (get-append b.heap _),
        (text_eq_iff id i).0 e,
        refl,
      )
  | inr ne ↦
      let (s, found, sid, opened) =
        wf i address (ground (arith, h, ne, lookup-insert id i (length b.heap) b.consumers)) in
      (s, get-append_old b.heap _ address s found, sid, opened)
]

open_close :
    {H : Type 0} (b : Broker H) (address : ℕ) (s : Session)
    → IsConsistent b
    → session_at b address ≡ some s
    → IsConsistent (
        remove_session
          (record b { heap = set_at address (record s { is_closed = true }) b.heap })
          s.id)
unfolding IsConsistent session_at remove_session
open_close b address s wf found id j h =
    let gone = lookup-remove s.id id b.consumers in
    let ne : (s.id == id) ≡ false = ground (arith, h, gone) in
    let (t, at, tid, opened) = wf id j (ground (arith, h, gone)) in
    let apart : address ≢ j = λ e.
      let one : s ≡ t = ground (arith, found, at, e) in
      ground (arith, one, tid, ne, text_eq_iff s.id id) in
    (t, get-set_at b.heap _ address j apart ∙ at, tid, opened)

-- Closing a session keeps the other consumers, which are open sessions still.
pub close-IsConsistent :
    {H : Type 0} (b : Broker H) (address : ℕ) → IsConsistent b → IsConsistent (close b address)
unfolding close close_session session_at
close-IsConsistent b address wf = elim (Option-cases (session_at b address)) [
  | inl e ↦ rw (close, e) wf
  | inr (s, e) ↦ elim (Bool-cases s.is_closed) [
    | inl closed ↦ rw (close, e, close_session, closed) wf
    | inr opened ↦ rw (close, e, close_session, opened) (open_close b address s wf e)
  ]
]

pub create_sessions-IsConsistent :
    {H : Type 0} (b : Broker H) (topic id : Text) (hs : List H)
    → IsConsistent b
    → IsConsistent (create_sessions b topic id hs).0
unfolding create_sessions
create_sessions-IsConsistent b topic id [] wf = wf
create_sessions-IsConsistent b topic id (h ∷ hs) wf =
    create_sessions-IsConsistent (create_session_locked b topic session_receiver id).0 topic id hs
      (create_session_locked-IsConsistent b topic session_receiver id wf)

dispatch_stopped :
    {H : Type 0} (b : Broker H) (msg : PeerMessage)
    → b.stopped ≡ true
    → dispatch_message b msg ≡ (b, dropped)
unfolding dispatch_message
dispatch_stopped b msg h = if-true _ _ h

dispatch_new :
    {H : Type 0} (b : Broker H) (msg : PeerMessage)
    → b.stopped ≡ false
    → eqb msg.fields.seq_no 0 ≡ true
    → dispatch_message b msg ≡ (
      (create_sessions b msg.fields.topic_name msg.fields.session_id
          (handlers_of b msg.fields.topic_name)).0,
      started
          (create_sessions b msg.fields.topic_name msg.fields.session_id
            (handlers_of b msg.fields.topic_name)).1,
    )
unfolding dispatch_message
dispatch_new b msg h k = if-false _ _ h ∙ if-true _ _ k

dispatch_old :
    {H : Type 0} (b : Broker H) (msg : PeerMessage)
    → b.stopped ≡ false
    → eqb msg.fields.seq_no 0 ≡ false
    → dispatch_message b msg ≡ (
      b,
      elim (lookup msg.fields.session_id b.consumers) [
        | none ↦ dropped
        | some address ↦ delivering address
      ],
    )
unfolding dispatch_message
dispatch_old b msg h k = if-false _ _ h ∙ if-false _ _ k

delivering_found :
    {H : Type 0} (id : Text) (b : Broker H) (address : ℕ)
    → ◌≡◌ {A = Dispatch H}
        (elim (lookup id b.consumers) [ none ↦ dropped | some a ↦ delivering a ])
        (delivering address)
    → lookup id b.consumers ≡ some address
delivering_found id b address h = ground (arith, h)

-- Where every consumer is an open session under its own id, dispatching a message keeps that, and
-- a message is sent on to an open session with the message's session id, or to none.
pub dispatch_message-IsConsistent :
    {H : Type 0} (b : Broker H) (msg : PeerMessage)
    → IsConsistent b
    → IsConsistent (dispatch_message b msg).0
      × ((address : ℕ)
          → (dispatch_message b msg).1 ≡ delivering address
          → (s : Session) × (session_at b address ≡ some s)
            × (s.id ≡ msg.fields.session_id)
            × (s.is_closed ≡ false))
unfolding IsConsistent
dispatch_message-IsConsistent b msg wf = elim (Bool-cases b.stopped) [
  | inl over ↦
      let e = dispatch_stopped b msg over in
      (subst (λ r. IsConsistent r.0) (sym e) wf, λ address h. absurd (ground (arith, e, h)))
  | inr running ↦ elim (Bool-cases (eqb msg.fields.seq_no 0)) [
    | inl new ↦
        let e = dispatch_new b msg running new in
        (
          subst (λ r. IsConsistent r.0) (sym e)
              (create_sessions-IsConsistent b msg.fields.topic_name msg.fields.session_id
                (handlers_of b msg.fields.topic_name) wf),
          λ address h. absurd (ground (arith, e, h)),
        )
    | inr old ↦
        let e = dispatch_old b msg running old in
        (
          subst (λ r. IsConsistent r.0) (sym e) wf,
          λ address h.
              wf msg.fields.session_id address
                (delivering_found msg.fields.session_id b address (sym (ap (λ r. r.1) e) ∙ h)),
        )
  ]
]

pub new_broker-IsConsistent :
    (H : Type 0) (queue_size : ℕ) → IsConsistent (new_broker {H = H} queue_size)
unfolding IsConsistent new_broker lookup
new_broker-IsConsistent H queue_size id address h = absurd (ground (arith, h))
