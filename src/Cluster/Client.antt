-- ===== src/Cluster/Client.antt =====
-- cluster/client.go: a client of a cluster server and the replica that it makes. The two transports
-- are those of the package p2p; what dialling a target, the broker's session and the enveloper give
-- are arguments. The replica's transport has no listening id yet when the replica is made.
pub mod Joining
use conver_go.Base.{
  Bool, List, Option, Outcome, Result, Text, [], err, if◌then◌else◌, ltb_ℤ, none, not, ok, pos, ret,
  some, text_Eq, true, ℕ, ℤ, ◌==◌, ◌>>=◌, ◌∷◌,
}
use conver_go.P2p.Message.{PeerHostInfo, PeerMessage, info_Eq}
use conver_go.P2p.Peer.{TcpPeer, is_active}
use conver_go.P2p.Channel.{BroadcastError}
use conver_go.P2p.Transport.{TcpLayer, TransportError, add_target, broadcast, new_tcp_transport}
use conver_go.Cluster.Membership.{align_with_peers_data}

pub data ClientError (E : Type 0) : Type 0 where
  already_connected not_connected not_initialized no_assigned_id bad_depth bad_mode : ClientError E
  server_error : Text → ClientError E
  outside : E → ClientError E
  transport_failed : TransportError E → ClientError E
  broadcast_failed : BroadcastError PeerHostInfo (TransportError E) → ClientError E

-- `clientActiveFlag` is `is_active`; the id and the transport of `peerClient` matter only with it.
pub record ClusterClient (D E : Type 0) : Type 0 where
  pub cluster_info : PeerHostInfo
  pub is_active : Bool
  pub transport : TcpLayer D E
  pub peer_id : PeerHostInfo
  pub peer_transport : TcpLayer D E

-- `pingClusterServer`, with what the enveloper, the broadcast, the wait and the decoder give.
unfoldable pub ping_cluster_server :
    {E : Type 0}
    → (enveloped : Result E PeerMessage) → (broadcast_error : Option E)
    → (response : Result E PeerMessage) → (decode : Text → Result E (List PeerHostInfo))
    → Result (ClientError E) (List PeerHostInfo)
ping_cluster_server (err e) broadcast_error response decode = err (outside e)
ping_cluster_server (ok env) (some e) response decode = err (outside e)
ping_cluster_server (ok env) none (err e) decode = err (outside e)
ping_cluster_server (ok env) none (ok response) decode =
    if not (response.is_error == [])
    then err (server_error response.is_error)
    else elim (decode response.payload) [ err e ↦ err (outside e) | ok peers ↦ ok peers ]

-- `alignWithPeersData` of the replica, with its error as the client's.
unfoldable pub align_peer_client :
    {D E : Type 0}
    → (dial : PeerHostInfo → Result E (TcpPeer E)) → List PeerHostInfo
    → ClusterClient D E
    → Outcome (ClusterClient D E × Option (ClientError E))
align_peer_client dial peers c =
    align_with_peers_data dial c.peer_id peers c.peer_transport >>= λ (t, e).
    ret (
      record c { peer_transport = t },
      elim e [ none ↦ none | some e' ↦ some (transport_failed e') ],
    )

-- The end of `ConnectToCluster`, once the server has answered.
unfoldable pub join_peers :
    {D E : Type 0}
    → (dial : PeerHostInfo → Result E (TcpPeer E)) → Result (ClientError E) (List PeerHostInfo)
    → ClusterClient D E
    → Outcome (ClusterClient D E × Option (ClientError E))
join_peers dial (err e) c = ret (c, some e)
join_peers dial (ok []) c = ret (c, some no_assigned_id)
join_peers dial (ok (assigned_info ∷ other_peers_info)) c =
    align_peer_client dial other_peers_info
      (record c { peer_id = assigned_info; peer_transport = new_tcp_transport; is_active = true })

-- `ConnectToCluster`
unfoldable pub connect_to_cluster :
    {D E : Type 0}
    → (dial : PeerHostInfo → Result E (TcpPeer E))
    → (response : Result (ClientError E) (List PeerHostInfo)) → ClusterClient D E
    → Outcome (ClusterClient D E × Option (ClientError E))
connect_to_cluster dial response c =
    if c.is_active
    then ret (c, some already_connected)
    else (let (t, e) = add_target c.transport c.cluster_info (dial c.cluster_info) in
        elim e [
          | some e' ↦ ret (record c { transport = t }, some (transport_failed e'))
          | none ↦ join_peers dial response (record c { transport = t })
        ])

-- The broadcast of the replica's files, with the message that their envelope is.
unfoldable pub broadcast_registry :
    {D E : Type 0}
    → (encode : D → Result E Text) → (write : ℕ → Text → Option E) → Result E D
    → ClusterClient D E
    → Outcome (ClusterClient D E × Option (ClientError E))
broadcast_registry encode write (err e) c = ret (c, some (outside e))
broadcast_registry encode write (ok env) c =
    broadcast encode write c.peer_transport env >>= λ result. ret (
      c,
      elim result [
        | err e ↦ some (transport_failed e)
        | ok (log, failure) ↦ elim failure [ none ↦ none | some f ↦ some (broadcast_failed f) ]
      ],
    )

-- `DiffuseData`
unfoldable pub diffuse_data :
    {D E : Type 0}
    → (dial : PeerHostInfo → Result E (TcpPeer E)) → (encode : D → Result E Text)
    → (write : ℕ → Text → Option E) → (response : Result (ClientError E) (List PeerHostInfo))
    → (enveloped : Result E D) → ClusterClient D E
    → Outcome (ClusterClient D E × Option (ClientError E))
diffuse_data dial encode write response enveloped c =
    if not c.is_active then ret (c, some not_connected) else elim response [
      | err e ↦ ret (c, some e)
      | ok peers ↦ align_peer_client dial peers c >>= λ (c', failure). elim failure [
        | some e ↦ ret (c', some e)
        | none ↦ broadcast_registry encode write enveloped c'
      ]
    ]

-- `history.OpVisualizationMode`, and what `DisplayData` asks of the replica.
pub data OpVisualizationMode : Type 0 where
  content_visual linear_visual dag_visual unknown_visual : OpVisualizationMode

pub data Display : Type 0 where
  visualize_content visualize_linear : Text → Display
  visualize_dag : Text → ℤ → Display

-- `DisplayData`
unfoldable pub display_data :
    {E : Type 0} → Bool → OpVisualizationMode → Text → ℤ → Result (ClientError E) Display
display_data is_active mode filepath max_depth =
    if not is_active then err not_initialized else elim mode [
      | content_visual ↦ ok (visualize_content filepath)
      | linear_visual ↦ ok (visualize_linear filepath)
      | dag_visual ↦
          if ltb_ℤ (pos 0) max_depth then ok (visualize_dag filepath max_depth) else err bad_depth
      | unknown_visual ↦ err bad_mode
    ]
