-- ===== src/Cluster/Tests.antt =====
-- Runs of cluster/clusters.go.
mod Replicas
use conver_go.Base.{
  Text, [], codes, err, has, insert, lookup, ok, refl, some, text_Eq, text_eq, ◌∷◌, ◌≡◌, ◌≢◌,
}
use conver_go.P2p.Message.{PeerHostInfo, user_eq, info_eq, info_Eq, user_Eq}
use conver_go.Cluster.Nodes.{
  ClusterNodeStore, cluster_client, get_id, shut_down, no_id, new_cluster_node_store, get_node,
  remove_node,
}
use conver_go.Cluster.Nodes.Consistency.{
  IsConsistent, new_cluster_node_store-IsConsistent, init-IsConsistent, with_node, kind_of,
  remove_node_lem,
}

program : Unit {0}
unfolding lookup insert has text_eq user_eq info_eq new_cluster_node_store get_id kind_of
program = tt

abbrev ada : PeerHostInfo
ada = record { id = codes "7"; user = record { name = codes "ada"; address = codes ":80" } }

abbrev bob : PeerHostInfo
bob = record { id = codes "8"; user = record { name = codes "bob"; address = codes ":81" } }

abbrev one_client : ClusterNodeStore
one_client = with_node new_cluster_node_store (cluster_client ada)

one_client-IsConsistent : IsConsistent one_client
unfolding program
one_client-IsConsistent =
    init-IsConsistent new_cluster_node_store (cluster_client ada)
      new_cluster_node_store-IsConsistent refl refl

remove_node_lem_example :
    (s : ClusterNodeStore) × (remove_node one_client ada ≡ ok (s, shut_down ada ∷ []))
    × IsConsistent s
    × (get_node s ada ≡ err no_id)
    × ((kind : Text) → lookup kind s.defaults ≢ some ada)
unfolding program
remove_node_lem_example =
    remove_node_lem one_client ada (cluster_client ada) one_client-IsConsistent refl
