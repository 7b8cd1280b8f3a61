-- ===== src/Cluster/Membership/Pairing.antt =====
-- What pairing does to the targets of a replica of cluster/cvrdtpeer.go.
use conver_go.Base.{
  Bool, Bool-cases, List, Option, Result, [], ap, arith, err, error_absurd, false, fst, has-insert,
  if-false, if-true, if◌then◌else◌, inl, inr, length, none, not, ok, refl, some, subst, sym,
  text_Eq, true, ◌&&◌, ◌==◌, ◌||◌, ◌∙◌, ◌∷◌, ◌≡◌,
}
use conver_go.P2p.Message.{PeerHostInfo, info_Eq}
use conver_go.P2p.Peer.{TcpPeer}
use conver_go.P2p.Transport.{
  TcpLayer, TransportError, add_peer, add_target, connection_error, is_peer_present, own_address,
  peer_exists,
}
use conver_go.Cluster.Membership.{contains, forgive_exists, pair, pair_new}

add_peer-present :
    {D E : Type 0} (t : TcpLayer D E) (v key : PeerHostInfo) (p : TcpPeer E)
    → is_peer_present (add_peer t v p) key ≡ ((v == key) || is_peer_present t key)
unfolding is_peer_present add_peer
add_peer-present t v key p = has-insert v key (length t.heap) t.peers

-- A target that is there is one of the targets there.
already :
    {D E : Type 0} (t : TcpLayer D E) (v key : PeerHostInfo)
    → is_peer_present t v ≡ true
    → is_peer_present t key ≡ ((v == key) || is_peer_present t key)
already t v key there = elim (Bool-cases (v == key)) [
  | inl e ↦
      subst (λ k. is_peer_present t k ≡ true) ((info_Eq.equal_iff v key).0 e) there
      ∙ sym (ap (λ b. b || is_peer_present t key) e)
  | inr e ↦ sym (ap (λ b. b || is_peer_present t key) e)
]

-- `Add` as `Pair` sees it, by the results of its two tests.
add_by :
    {D E : Type 0}
    → TcpLayer D E
    → PeerHostInfo
    → Result E (TcpPeer E)
    → Bool
    → Bool
    → TcpLayer D E × Option (TransportError E)
add_by t v c own present =
    if own
    then (t, some own_address)
    else if present
    then (t, some peer_exists)
    else elim c [ err e ↦ (t, some (connection_error e)) | ok p ↦ (add_peer t v p, none) ]

paired :
    {D E : Type 0} (t t' : TcpLayer D E) (v key : PeerHostInfo) (c : Result E (TcpPeer E))
    (own present : Bool)
    → is_peer_present t v ≡ present
    → ◌≡◌ {A = TcpLayer D E × Option (TransportError E)}
        ((add_by t v c own present).0, forgive_exists (add_by t v c own present).1)
        (t', none)
    → is_peer_present t' key ≡ ((v == key) || is_peer_present t key)
unfolding forgive_exists add_by
paired t t' v key c true present there h = error_absurd h
paired t t' v key c false true there h =
    ap (λ u. is_peer_present u key) (sym (ap fst h)) ∙ already t v key there
paired t t' v key (err e) false false there h = error_absurd h
paired t t' v key (ok p) false false there h =
    ap (λ u. is_peer_present u key) (sym (ap fst h)) ∙ add_peer-present t v key p

-- What pairing without an error does to the targets.
pair-present :
    {D E : Type 0} (dial : PeerHostInfo → Result E (TcpPeer E)) (t t' : TcpLayer D E)
    (v key : PeerHostInfo)
    → pair dial t v ≡ (t', none)
    → is_peer_present t' key ≡ ((v == key) || is_peer_present t key)
unfolding pair add_target add_by
pair-present dial t t' v key h =
    paired t t' v key (dial v) (v == t.local_id) (is_peer_present t v) refl h

add_skipped :
    (a c n p : Bool) → (a ≡ true → n ≡ true) → ((c && not n) || p) ≡ (((a || c) && not n) || p)
add_skipped true c n p h = ground (arith, h refl)
add_skipped false c n p h = refl

add_new :
    (a c n p : Bool)
    → (a ≡ true → n ≡ false)
    → ((c && not n) || (a || p)) ≡ (((a || c) && not n) || p)
add_new true c n p h = ground (arith, h refl)
add_new false c n p h = refl

-- The loop that pairs adds the targets of the list that are neither the host nor known.
pub pair_new-present :
    {D E : Type 0} (dial : PeerHostInfo → Result E (TcpPeer E)) (id : PeerHostInfo)
    (current vs : List PeerHostInfo) (t t' : TcpLayer D E) (key : PeerHostInfo)
    → pair_new dial id current vs t ≡ (t', none)
    → is_peer_present t' key
      ≡ ((contains key vs && not ((id == key) || contains key current)) || is_peer_present t key)
unfolding pair_new contains
pair_new-present dial id current [] t t' key h = ap (λ u. is_peer_present u key) (sym (ap fst h))
pair_new-present {D} {E} dial id current (v ∷ vs) t t' key h = elim (Bool-cases (known v)) [
  | inl e ↦
      (let next : pair_new dial id current vs t ≡ (t', none) = sym (if-true _ _ e) ∙ h in
        pair_new-present dial id current vs t t' key next
        ∙ add_skipped (v == key) (contains key vs) (known key) (is_peer_present t key)
            (alike true e))
  | inr e ↦
      (let tried : paired_then (pair dial t v) ≡ (t', none) = sym (if-false _ _ e) ∙ h in
        let (fine, next) = settle (pair dial t v) tried in
        pair_new-present dial id current vs (pair dial t v).0 t' key next
        ∙ ap (λ p. (contains key vs && not (known key)) || p)
            (pair-present dial t (pair dial t v).0 v key fine)
        ∙ add_new (v == key) (contains key vs) (known key) (is_peer_present t key) (alike false e))
]
  where
    known : PeerHostInfo → Bool
    known w = (id == w) || contains w current

    alike : (b : Bool) → known v ≡ b → (v == key) ≡ true → known key ≡ b
    alike b e same = subst (λ w. known w ≡ b) ((info_Eq.equal_iff v key).0 same) e

    paired_then :
        TcpLayer D E × Option (TransportError E) → TcpLayer D E × Option (TransportError E)
    paired_then r = elim r.1 [ some e ↦ (r.0, some e) | none ↦ pair_new dial id current vs r.0 ]

    settle :
        (r : TcpLayer D E × Option (TransportError E))
        → paired_then r ≡ (t', none)
        → ◌≡◌ {A = TcpLayer D E × Option (TransportError E)} r (r.0, none)
          × (pair_new dial id current vs r.0 ≡ (t', none))
    settle (u, none) k = (refl, k)
    settle (u, some e) k = error_absurd k
