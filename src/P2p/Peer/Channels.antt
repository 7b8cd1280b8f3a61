-- ===== src/P2p/Peer/Channels.antt =====
-- The channels of the receive sessions of p2p/peer.go: what opens and closes one.
use conver_go.Base.{
  Option, Option-cases, Outcome, [], ap, eq_cases, false, get_elem?, get_elem?-append_last,
  get_elem?-append_ne, get_elem?-set, get_elem?-set_ne, get_elem?-set_self, inl, inr, length,
  lt-length, none, refl, ret, set, some, some_inj, subst, sym, true, ℕ, ◌++◌, ◌∙◌, ◌∷◌, ◌≡◌,
}
use conver_go.P2p.Peer.{
  PeerError, RecvSession, TcpPeer, push_error, close_channels, close_session_locked, cancel,
  end_active, receive, new_recv_session,
}

-- Exactly the active session is open.
pub record IsLive {E : Type 0} (p : TcpPeer E) : Type 0 where
  pub active_open :
      (i : ℕ)
      → p.active ≡ some i
      → (s : RecvSession E) × (get_elem? p.sessions i ≡ some s) × (s.is_closed ≡ false)
  pub open_active :
      (i : ℕ) (s : RecvSession E)
      → get_elem? p.sessions i ≡ some s
      → s.is_closed ≡ false
      → p.active ≡ some i

-- The session that closing leaves.
unfoldable pub shut : {E : Type 0} → Option (PeerError E) → RecvSession E → RecvSession E
shut optional_err s = record s { errors = push_error optional_err s.errors; is_closed = true }

-- Writing a session that is open where an open one stands keeps this.
pub set-IsLive :
    {E : Type 0} (p : TcpPeer E) (i : ℕ) (s s' : RecvSession E)
    → IsLive p
    → get_elem? p.sessions i ≡ some s
    → s'.is_closed ≡ s.is_closed
    → IsLive (record p { sessions = set p.sessions i s' })
set-IsLive p i s s' h at same = record {
  active_open = λ j a. elim (eq_cases i j) [
    | inl e ↦ (
      s',
      subst (λ k. get_elem? (set p.sessions i s') k ≡ some s') e
          (get_elem?-set_self p.sessions i s' (lt-length p.sessions i at)),
      (let (t, found, fresh) = h.active_open j a in
          same
          ∙ ap (λ x. x.is_closed) (some_inj (sym at ∙ ap (get_elem? p.sessions) e ∙ found))
          ∙ fresh),
    )
    | inr n ↦
        (let (t, found, fresh) = h.active_open j a in
          (t, get_elem?-set_ne p.sessions i j s' n ∙ found, fresh))
  ];
  open_active = λ j t found fresh. elim (get_elem?-set p.sessions i j s' t found) [
    | inl (e, f) ↦
        subst (λ k. p.active ≡ some k) e
          (h.open_active i s at (sym same ∙ ap (λ x. x.is_closed) (some_inj f) ∙ fresh))
    | inr (e, f) ↦ h.open_active j t f fresh
  ];
}

-- Closing the session at the active position leaves none open.
close-IsLive :
    {E : Type 0} (p : TcpPeer E) (i : ℕ) (s s' : RecvSession E)
    → IsLive p
    → p.active ≡ some i
    → s'.is_closed ≡ true
    → IsLive (record p { sessions = set p.sessions i s'; active = none })
close-IsLive p i s s' h a shut_off = record {
  active_open = λ j b. cc;
  open_active = λ j t found fresh. elim (get_elem?-set p.sessions i j s' t found) [
    | inl (e, f) ↦
        absurd
          (let w : true ≡ false = sym shut_off ∙ ap (λ x. x.is_closed) (some_inj f) ∙ fresh in cc)
    | inr (n, f) ↦ absurd (n (some_inj (sym a ∙ h.open_active j t f fresh)))
  ];
}

pub close_session_locked-open :
    {E : Type 0} (optional_err : Option (PeerError E)) (p : TcpPeer E) (i : ℕ) (s : RecvSession E)
    → p.active ≡ some i
    → get_elem? p.sessions i ≡ some s
    → s.is_closed ≡ false
    → close_session_locked optional_err p
      ≡ ret (record p { sessions = set p.sessions i (shut optional_err s); active = none })
unfolding close_session_locked close_channels shut push_error
close_session_locked-open optional_err p i s a found fresh =
    simp (close_session_locked, close_channels, shut, a, found, fresh)

-- Closing the active session leaves a peer without one and without an open session.
pub close_session_locked-IsLive :
    {E : Type 0} (optional_err : Option (PeerError E)) (p : TcpPeer E)
    → IsLive p
    → (p' : TcpPeer E) × (close_session_locked optional_err p ≡ ret p')
      × IsLive p'
      × (p'.active ≡ none)
unfolding close_session_locked close_channels shut push_error
close_session_locked-IsLive optional_err p h = elim (Option-cases p.active) [
  | inl e ↦ (p, simp (close_session_locked, e), h, e)
  | inr (i, e) ↦
      (let (s, found, fresh) = h.active_open i e in
        (
          record p { sessions = set p.sessions i (shut optional_err s); active = none },
          close_session_locked-open optional_err p i s e found fresh,
          close-IsLive p i s (shut optional_err s) h e refl,
          refl,
        ))
]

pub cancel-IsLive : {E : Type 0} (i : ℕ) (p : TcpPeer E) → IsLive p → IsLive (cancel i p)
unfolding cancel
cancel-IsLive i p h = elim (Option-cases (get_elem? p.sessions i)) [
  | inl e ↦ subst IsLive (sym (simp (cancel, e))) h
  | inr (s, e) ↦
      subst IsLive (sym (simp (cancel, e)))
        (set-IsLive p i s (record s { is_done = true }) h e refl)
]

-- A result with its peer live.
abbrev pub Returns : {E : Type 0} → Outcome (TcpPeer E) → Type 0
Returns {E} o = (p : TcpPeer E) × (o ≡ ret p) × IsLive p

pub end_active-IsLive :
    {E : Type 0} (p : TcpPeer E)
    → IsLive p
    → (p' : TcpPeer E) × (end_active p ≡ ret p') × IsLive p' × (p'.active ≡ none)
unfolding end_active
end_active-IsLive p h = elim (Option-cases p.active) [
  | inl e ↦ (p, simp (end_active, e), h, e)
  | inr (i, e) ↦
      (let (p', closing_eq, live, idle) =
          close_session_locked-IsLive none (cancel i p) (cancel-IsLive i p h) in
        (p', simp (end_active, e, closing_eq), live, idle))
]

unfoldable pub with_session : {E : Type 0} → TcpPeer E → TcpPeer E
with_session p = record p {
  sessions = p.sessions ++ (new_recv_session ∷ []);
  active = some (length p.sessions);
  is_reading = true;
}

pub with_session-IsLive :
    {E : Type 0} (p : TcpPeer E) → IsLive p → p.active ≡ none → IsLive (with_session p)
unfolding with_session new_recv_session
with_session-IsLive p h idle = record {
  active_open = λ i a. (
    new_recv_session,
    subst (λ k. get_elem? (p.sessions ++ (new_recv_session ∷ [])) k ≡ some new_recv_session)
        (some_inj a) (get_elem?-append_last p.sessions new_recv_session),
    refl,
  );
  open_active = λ i s found fresh. elim (eq_cases i (length p.sessions)) [
    | inl e ↦ ap some (sym e)
    | inr n ↦ absurd (
        let taken =
          h.open_active i s (sym (get_elem?-append_ne p.sessions new_recv_session i n) ∙ found)
            fresh in
        let w : none ≡ some i = sym idle ∙ taken in cc)
  ];
}

pub receive-IsLive : {E : Type 0} (p : TcpPeer E) → IsLive p → Returns (receive p)
unfolding receive with_session
receive-IsLive p h =
    let (p', ended, live, idle) = end_active-IsLive p h in
    (with_session p', simp (receive, with_session, ended), with_session-IsLive p' live idle)
