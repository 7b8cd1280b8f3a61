-- ===== src/Cluster/Peers.antt =====
-- cluster/store.go: the peers that a cluster server has made for its clients, by user. Every
-- operation runs under the store's lock.
pub mod Users
use conver_go.Base.{
  Bool, List, Map, Option, Text, decimal, has, if◌then◌else◌, insert, lookup, none, remove, some,
  text_Eq, values, ℕ, ◌%◌, ◌+◌, ◌^◌, ◌∷◌,
}
use conver_go.P2p.Message.{UserData, PeerHostInfo, user_Eq, create_new_host_info}

-- `autoIncId` is a `uint64`.
pub record ClusterStore : Type 0 where
  pub auto_inc_id : ℕ
  pub client_created_peers : Map UserData PeerHostInfo

unfoldable pub is_user_exists : ClusterStore → UserData → Bool
is_user_exists cs user = has user cs.client_created_peers

-- `retrieveLockedCurrentPeers`, and `RetrieveCurrentPeers` around it.
unfoldable pub retrieve_current_peers : ClusterStore → List PeerHostInfo
retrieve_current_peers cs = values cs.client_created_peers

unfoldable pub next_id : ClusterStore → ℕ
next_id cs = (cs.auto_inc_id + 1) % 2 ^ 64

-- The store after `AddNewPeer`, and its list of peers; `none` is `ErrUserAlreadyExists`.
unfoldable pub add_new_peer :
    ClusterStore → PeerHostInfo → Text → ClusterStore × Option (List PeerHostInfo)
add_new_peer cs info peer_address =
    if is_user_exists cs info.user
    then (cs, none)
    else (let new_peer_info =
          create_new_host_info (decimal (next_id cs)) info.user.name peer_address in
        let peers = insert info.user new_peer_info cs.client_created_peers in
        (
          record { auto_inc_id = next_id cs; client_created_peers = peers },
          some (new_peer_info ∷ values peers),
        ))

-- `RemovePeer`, with the peer that it gives back if there is one.
unfoldable pub remove_peer : ClusterStore → PeerHostInfo → ClusterStore × Option PeerHostInfo
remove_peer cs info = elim (lookup info.user cs.client_created_peers) [
  | none ↦ (cs, none)
  | some peer_info ↦ (
    record cs { client_created_peers = remove info.user cs.client_created_peers },
    some peer_info,
  )
]
