-- ===== src/P2p/Transport/Handling/Soundness.antt =====
-- Every list of events of a transport of p2p/communication.go returns: no step of a peer panics.
use conver_go.Base.{
  Bool, Bool-cases, List, Option, Option-cases, Outcome, Result, Text, [], ap, arith, eq_cases, err,
  false, get_elem?, get_elem?-append_last, get_elem?-append_ne, get_elem?-set, get_elem?-some,
  if◌then◌else◌, inl, inr, keys, length, length-append, length-set, lookup, lookup-insert-some,
  lookup-remove-some, none, ok, refl, remove, ret, set, some, some_inj, subst, sym, text_Eq, true,
  ℕ, ◌++◌, ◌<◌, ◌==◌, ◌>>=◌, ◌∙◌, ◌∷◌, ◌≡◌,
}
use conver_go.P2p.Message.{PeerHostInfo, info_Eq, PeerMessage}
use conver_go.P2p.Channel.{close_flag, ShutDownFlag}
use conver_go.P2p.Peer.{TcpPeer, close, get_peer_info}
use conver_go.P2p.Peer.Channels.{IsLive, Returns}
use conver_go.P2p.Peer.Runs.{close_peer-IsLive}
use conver_go.P2p.Transport.{
  TcpLayer, add_peer, at_peer, remove_peer, construct_and_send_meta_msg, is_peer_present,
  remove_peers, remove_target, shutdown, add_target, close_layer, send_meta_msg, accept,
  TransportError,
}
use conver_go.P2p.Transport.Handling.{}

-- What a handshake gives is a live peer.
unfoldable pub FitResult : {E F : Type 0} → Result F (TcpPeer E) → Type 0
FitResult (err e) = Unit {0}
FitResult (ok p) = IsLive p

-- Every peer is live, and every target has one.
pub record IsSound {D E : Type 0} (t : TcpLayer D E) : Type 0 where
  pub live : (address : ℕ) (p : TcpPeer E) → get_elem? t.heap address ≡ some p → IsLive p
  pub addressed :
      (info : PeerHostInfo) (address : ℕ)
      → lookup info t.peers ≡ some address
      → address < length t.heap

-- A result with its layer sound.
abbrev pub Sound : {D E : Type 0} → Outcome (TcpLayer D E) → Type 0
Sound {D} {E} o = (t : TcpLayer D E) × (o ≡ ret t) × IsSound t

-- Writing a live peer keeps this.
pub set-IsSound :
    {D E : Type 0} (t : TcpLayer D E) (address : ℕ) (p : TcpPeer E)
    → IsSound t
    → IsLive p
    → IsSound (record t { heap = set t.heap address p })
set-IsSound t address p h good = record {
  live = λ other q found. elim (get_elem?-set t.heap address other p q found) [
    | inl (e, f) ↦ subst IsLive (some_inj f) good
    | inr (n, f) ↦ h.live other q f
  ];
  addressed = λ info other found.
      subst (◌<◌ other) (sym (length-set t.heap address p)) (h.addressed info other found);
}

-- What a step needs of the function that it applies to a peer.
pub at_peer-IsSound :
    {D E : Type 0} (f : TcpPeer E → Outcome (TcpPeer E)) (address : ℕ) (t : TcpLayer D E)
    → ((p : TcpPeer E) → IsLive p → Returns (f p))
    → IsSound t
    → address < length t.heap
    → (p' : TcpPeer E) × (at_peer f address t ≡ ret (record t { heap = set t.heap address p' }))
      × IsSound (record t { heap = set t.heap address p' })
unfolding at_peer
at_peer-IsSound f address t keeps h room =
    let (p, found) = get_elem?-some t.heap address room in
    let (p', stepped, good) = keeps p (h.live address p found) in
    (p', simp (at_peer, found, stepped), set-IsSound t address p' h good)

pub forget_peer-IsSound :
    {D E : Type 0} (t : TcpLayer D E) (addr : PeerHostInfo)
    → IsSound t
    → IsSound (record t { peers = remove addr t.peers })
forget_peer-IsSound t addr h = record {
  live = h.live;
  addressed = λ info address found.
      h.addressed info address (lookup-remove-some addr info t.peers address found);
}

pub remove_peer-IsSound :
    {D E : Type 0} (t : TcpLayer D E) (addr : PeerHostInfo) → IsSound t → Sound (remove_peer t addr)
unfolding remove_peer
remove_peer-IsSound t addr h = elim (Option-cases (lookup addr t.peers)) [
  | inl e ↦ (t, simp (remove_peer, e), h)
  | inr (address, e) ↦
      (let (p', stepped, good) =
          at_peer-IsSound close address t close_peer-IsLive h (h.addressed addr address e) in
        let t' = record t { heap = set t.heap address p' } in
        (
          record t' { peers = remove addr t'.peers },
          simp (remove_peer, e, stepped),
          forget_peer-IsSound t' addr good,
        ))
]

pub add_peer-IsSound :
    {D E : Type 0} (t : TcpLayer D E) (addr : PeerHostInfo) (p : TcpPeer E)
    → IsSound t
    → IsLive p
    → IsSound (add_peer t addr p)
unfolding add_peer
add_peer-IsSound t addr p h good = record {
  live = λ address q found. elim (eq_cases address (length t.heap)) [
    | inl e ↦
        subst IsLive
          (some_inj (
            sym (get_elem?-append_last t.heap p)
            ∙ sym (ap (get_elem? (t.heap ++ (p ∷ []))) e)
            ∙ found))
          good
    | inr n ↦ h.live address q (sym (get_elem?-append_ne t.heap p address n) ∙ found)
  ];
  addressed = λ info address found.
      elim (lookup-insert-some addr info (length t.heap) address t.peers found) [
        | inl (e, f) ↦ omega (arith, some_inj f, length-append t.heap (p ∷ []))
        | inr f ↦ omega (arith, h.addressed info address f, length-append t.heap (p ∷ []))
      ];
}

-- A step that leaves the peers and their objects as they are.
pub same-IsSound :
    {D E : Type 0} (t t' : TcpLayer D E)
    → t.peers ≡ t'.peers
    → t.heap ≡ t'.heap
    → IsSound t
    → IsSound t'
same-IsSound t t' e f h = record {
  live = λ address p found. h.live address p (ap (λ heap. get_elem? heap address) f ∙ found);
  addressed = λ info address found.
      subst (λ heap. address < length heap) f
        (h.addressed info address (ap (lookup info) e ∙ found));
}

pub send_meta_msg-IsSound :
    {D E : Type 0} (env : Option D) (t : TcpLayer D E) → IsSound t → IsSound (send_meta_msg env t)
unfolding send_meta_msg
send_meta_msg-IsSound none t h = h
send_meta_msg-IsSound (some env) t h = record { live = h.live; addressed = h.addressed }

pub meta_msg-IsSound :
    {D E : Type 0} (t : TcpLayer D E) (header : PeerMessage)
    → IsSound t
    → IsSound (construct_and_send_meta_msg t header)
unfolding construct_and_send_meta_msg
meta_msg-IsSound t header h =
    send_meta_msg-IsSound (elim t.local_msg_factory [ none ↦ none | some factory ↦ factory header ])
      t h

pub remove_target-IsSound :
    {D E : Type 0} (t : TcpLayer D E) (target : PeerHostInfo)
    → IsSound t
    → Sound (remove_target t target >>= λ (t', e). ret t')
unfolding remove_target
remove_target-IsSound t target h = elim (Bool-cases (is_peer_present t target)) [
  | inl e ↦
      (let (t', removed, good) = remove_peer-IsSound t target h in
        (t', simp (remove_target, e, removed), good))
  | inr e ↦ (t, simp (remove_target, e), h)
]

pub remove_peers-IsSound :
    {D E : Type 0} (t : TcpLayer D E) (addrs : List PeerHostInfo)
    → IsSound t
    → Sound (remove_peers t addrs)
unfolding remove_peers
remove_peers-IsSound t [] h = (t, refl, h)
remove_peers-IsSound t (addr ∷ addrs) h =
    let (t', removed, good) = remove_peer-IsSound t addr h in
    let (t'', rest, better) = remove_peers-IsSound t' addrs good in
    (t'', simp (remove_peers, removed, rest), better)

pub close_layer-IsSound :
    {D E : Type 0} (flag : Option ShutDownFlag) (t : TcpLayer D E)
    → IsSound t
    → IsSound (close_layer flag t).0
unfolding close_layer
close_layer-IsSound none t h = h
close_layer-IsSound (some flag) t h = record { live = h.live; addressed = h.addressed }

pub shutdown-IsSound :
    {D E : Type 0} (t : TcpLayer D E) → IsSound t → Sound (shutdown t >>= λ (t', e). ret t')
unfolding shutdown
shutdown-IsSound t h =
    let (t', removed, good) = remove_peers-IsSound t (keys t.peers) h in
    (
      (close_layer (close_flag t'.shutdown_flag) t').0,
      simp (shutdown, removed),
      close_layer-IsSound (close_flag t'.shutdown_flag) t' good,
    )

-- Both branches of a test keep a property of the layer in front.
pub either {ℓ} :
    {A : Type ℓ} (P : A → Type 0) (c : Bool) (x y : A) → P x → P y → P (if c then x else y)
either P true x y h k = h
either P false x y h k = k

pub add_target-IsSound :
    {D E : Type 0} (t : TcpLayer D E) (target : PeerHostInfo) (connected : Result E (TcpPeer E))
    → IsSound t
    → FitResult connected
    → IsSound (add_target t target connected).0
unfolding add_target FitResult
add_target-IsSound {D} {E} t target (err e) h fit =
    let front : TcpLayer D E × Option (TransportError E) → Type 0 = λ r. IsSound r.0 in
    either front (target == t.local_id) _ _ h (either front (is_peer_present t target) _ _ h h)
add_target-IsSound {D} {E} t target (ok p) h fit =
    let front : TcpLayer D E × Option (TransportError E) → Type 0 = λ r. IsSound r.0 in
    either front (target == t.local_id) _ _ h
      (either front (is_peer_present t target) _ _ h (add_peer-IsSound t target p h fit))

pub accept-IsSound :
    {D E : Type 0} (t : TcpLayer D E) (shaken : Result Text (TcpPeer E))
    → IsSound t
    → FitResult shaken
    → IsSound (accept t shaken)
unfolding accept FitResult
accept-IsSound t (err text) h fit =
    either IsSound t.shutdown_flag.is_shut_down _ _ h (meta_msg-IsSound t _ h)
accept-IsSound t (ok p) h fit = either IsSound t.shutdown_flag.is_shut_down _ _ h (
    meta_msg-IsSound (add_peer t (get_peer_info p) p) _
      (add_peer-IsSound t (get_peer_info p) p h fit))
