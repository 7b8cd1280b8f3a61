-- ===== src/Cluster/Tests/Replicas.antt =====
-- Runs of cluster/cvrdtpeer.go, cluster/server.go and cluster/client.go.
use conver_go.Base.{
  All, List, Option, Result, Text, [], codes, false, has, inr, insert, lookup, none, not, ok, refl,
  remove, some, text_Eq, text_eq, value_or, ℕ, ◌&&◌, ◌==◌, ◌∷◌, ◌≡◌, decimal, digits,
}
use conver_go.P2p.Message.{
  PeerHostInfo, user_eq, info_eq, info_Eq, user_Eq, create_new_host_info, get_peer_metadata,
}
use conver_go.P2p.Channel.{new_safe_channel}
use conver_go.P2p.Peer.{TcpPeer, new_tcp_peer, close, close_session_locked}
use conver_go.P2p.Transport.{
  TcpLayer, add_peer, add_target, at_peer, broadcast, broadcast_to, get_targets, is_peer_present,
  new_tcp_transport, remove_peer, remove_target, send, send_between,
}
use conver_go.P2p.Transport.Sends.{Sent}
use conver_go.Cluster.Peers.{
  ClusterStore, add_new_peer, is_user_exists, next_id, retrieve_current_peers,
}
use conver_go.Cluster.Membership.{
  align_with_peers_data, contains, disconnect_from, drop_old, forgive_exists, forgive_missing,
  is_new_peer, pair, pair_new,
}
use conver_go.Cluster.Membership.Alignment.{align_with_peers_data-targets}
use conver_go.Cluster.Server.{Enveloper, ping_join}
use conver_go.Cluster.Server.Joins.{ping_join-refused}
use conver_go.Cluster.Client.{
  ClusterClient, align_peer_client, broadcast_registry, connect_to_cluster, diffuse_data,
  join_peers,
}
use conver_go.Cluster.Client.Joining.{IsAligned, add_new_peer-joins, diffuse_data-IsAligned}

program : Unit {0}
unfolding lookup insert remove has text_eq user_eq info_eq new_tcp_peer close close_session_locked
    new_tcp_transport new_safe_channel is_peer_present send_between send broadcast_to broadcast
    get_targets add_peer at_peer remove_peer remove_target add_target forgive_exists forgive_missing
    pair disconnect_from contains pair_new is_new_peer drop_old align_with_peers_data is_user_exists
    next_id add_new_peer create_new_host_info align_peer_client join_peers connect_to_cluster
    broadcast_registry diffuse_data retrieve_current_peers decimal digits
program = tt

abbrev person : ℕ → Text → PeerHostInfo
person n name = record { id = n ∷ []; user = record { name = name; address = codes ":80" } }

abbrev eva : PeerHostInfo
eva = person 49 (codes "eva")

abbrev fred : PeerHostInfo
fred = person 50 (codes "fred")

abbrev gina : PeerHostInfo
gina = person 51 (codes "gina")

abbrev dials : PeerHostInfo → Result Text (TcpPeer Text)
dials target = ok new_tcp_peer

abbrev knows_gina : TcpLayer Text Text
knows_gina = add_peer new_tcp_transport gina new_tcp_peer

abbrev knows_fred : TcpLayer Text Text
knows_fred =
    (value_or (new_tcp_transport, none)
      (align_with_peers_data dials eva (eva ∷ fred ∷ []) knows_gina)).0

align_with_peers_data-targets_example :
    is_peer_present knows_fred gina ≡ (not (eva == gina) && contains gina (eva ∷ fred ∷ []))
unfolding program
align_with_peers_data-targets_example =
    align_with_peers_data-targets dials eva (eva ∷ fred ∷ []) knows_gina knows_fred refl gina

abbrev with_fred : ClusterStore
with_fred = record { auto_inc_id = 1; client_created_peers = (fred.user, fred) ∷ [] }

abbrev envelops : Enveloper Text
envelops key _ = (key, none)

ping_join-refused_example :
    ping_join with_fred gina envelops
      (λ bytes. ok bytes)
      (get_peer_metadata [] [] fred (codes ":9"))
    ≡ (with_fred, none)
unfolding program get_peer_metadata
ping_join-refused_example =
    ping_join-refused with_fred gina envelops (λ bytes. ok bytes)
      (get_peer_metadata [] [] fred (codes ":9")) (λ key _. refl) (inr refl)

abbrev fresh_client : ClusterClient Text Text
fresh_client = record {
  cluster_info = gina;
  is_active = false;
  transport = new_tcp_transport;
  peer_id = gina;
  peer_transport = new_tcp_transport;
}

abbrev joined : ClusterStore × Option (List PeerHostInfo)
joined = add_new_peer with_fred eva (codes ":90")

abbrev answered : List PeerHostInfo
answered = elim joined.1 [ none ↦ [] | some peers ↦ peers ]

abbrev connected_client : ClusterClient Text Text
connected_client =
    (value_or (fresh_client, none) (connect_to_cluster dials (ok answered) fresh_client)).0

add_new_peer-joins_example : IsAligned connected_client (retrieve_current_peers with_fred)
unfolding program
add_new_peer-joins_example =
    add_new_peer-joins dials with_fred joined.0 eva (codes ":90") answered fresh_client
      connected_client refl refl

abbrev works : ℕ → Text → Option Text
works address bytes = none

abbrev encodes : Text → Result Text Text
encodes d = ok d

abbrev diffused : ClusterClient Text Text
diffused =
    (value_or (fresh_client, none)
      (diffuse_data dials encodes works (ok (fred ∷ gina ∷ [])) (ok (codes "state"))
        connected_client)).0

diffuse_data-IsAligned_example :
    IsAligned diffused (fred ∷ gina ∷ [])
    × All
        (Sent encodes works diffused.peer_transport (codes "state"))
        (get_targets diffused.peer_transport)
unfolding program
diffuse_data-IsAligned_example =
    diffuse_data-IsAligned dials encodes works (fred ∷ gina ∷ []) (codes "state") connected_client
      diffused refl
