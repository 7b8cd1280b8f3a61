-- ===== src/Cluster/Membership.antt =====
-- cluster/cvrdtpeer.go: a replica's connections to the other replicas of its cluster. The transport is
-- the one of the package p2p; `dial` is what connecting to a target gives.
pub mod Pairing
pub mod Alignment
use conver_go.Base.{
  Bool, List, Option, Outcome, Result, [], false, if◌then◌else◌, none, not, ret, some, text_Eq,
  ◌&&◌, ◌==◌, ◌>>=◌, ◌||◌, ◌∷◌,
}
use conver_go.P2p.Message.{PeerHostInfo, info_Eq}
use conver_go.P2p.Peer.{TcpPeer}
use conver_go.P2p.Transport.{
  TcpLayer, TransportError, add_target, get_targets, peer_exists, peer_missing, remove_target,
}

-- `Pair` and `DisconnectFrom`: a target that is there already, or that is not there, is no error.
unfoldable pub forgive_exists : {E : Type 0} → Option (TransportError E) → Option (TransportError E)
forgive_exists (some peer_exists) = none
forgive_exists e = e

unfoldable pub forgive_missing :
    {E : Type 0} → Option (TransportError E) → Option (TransportError E)
forgive_missing (some peer_missing) = none
forgive_missing e = e

unfoldable pub pair :
    {D E : Type 0}
    → (dial : PeerHostInfo → Result E (TcpPeer E)) → TcpLayer D E
    → PeerHostInfo
    → TcpLayer D E × Option (TransportError E)
pair dial t target = let (t', e) = add_target t target (dial target) in (t', forgive_exists e)

unfoldable pub disconnect_from :
    {D E : Type 0}
    → TcpLayer D E
    → PeerHostInfo
    → Outcome (TcpLayer D E × Option (TransportError E))
disconnect_from t target = remove_target t target >>= λ (t', e). ret (t', forgive_missing e)

unfoldable pub contains : PeerHostInfo → List PeerHostInfo → Bool
contains v [] = false
contains v (x ∷ xs) = (x == v) || contains v xs

-- The first loop of `alignWithPeersData`, over the list that came in: the targets that are not yet
-- connected are paired, up to the first error.
unfoldable pub pair_new :
    {D E : Type 0}
    → (dial : PeerHostInfo → Result E (TcpPeer E)) → (id : PeerHostInfo)
    → (current : List PeerHostInfo) → List PeerHostInfo
    → TcpLayer D E
    → TcpLayer D E × Option (TransportError E)
pair_new dial id current [] t = (t, none)
pair_new dial id current (v ∷ vs) t =
    if (id == v) || contains v current
    then pair_new dial id current vs t
    else (let (t', e) = pair dial t v in
        elim e [ some e' ↦ (t', some e') | none ↦ pair_new dial id current vs t' ])

-- `newPeersSet`
unfoldable pub is_new_peer : PeerHostInfo → List PeerHostInfo → PeerHostInfo → Bool
is_new_peer id new_peer_list v = not (id == v) && contains v new_peer_list

-- The second loop, over the targets of before: those that the list does not have are removed.
unfoldable pub drop_old :
    {D E : Type 0}
    → (id : PeerHostInfo) → (new_peer_list : List PeerHostInfo) → List PeerHostInfo
    → TcpLayer D E
    → Outcome (TcpLayer D E × Option (TransportError E))
drop_old id new_peer_list [] t = ret (t, none)
drop_old id new_peer_list (v ∷ vs) t =
    if is_new_peer id new_peer_list v
    then drop_old id new_peer_list vs t
    else (disconnect_from t v >>= λ (t', e). elim e [
      | some e' ↦ ret (t', some e')
      | none ↦ drop_old id new_peer_list vs t'
    ])

-- `alignWithPeersData`
unfoldable pub align_with_peers_data :
    {D E : Type 0}
    → (dial : PeerHostInfo → Result E (TcpPeer E)) → (id : PeerHostInfo) → List PeerHostInfo
    → TcpLayer D E
    → Outcome (TcpLayer D E × Option (TransportError E))
align_with_peers_data dial id new_peer_list t =
    let (t', e) = pair_new dial id (get_targets t) new_peer_list t in
    elim e [ some e' ↦ ret (t', some e') | none ↦ drop_old id new_peer_list (get_targets t) t' ]
