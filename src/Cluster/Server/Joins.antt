-- ===== src/Cluster/Server/Joins.antt =====
-- The answers of a cluster server of cluster/server.go to those who join.
use conver_go.Base.{Result, Result-cases, Text, err, inl, inr, none, true, ◌≡◌, ◌⊎◌}
use conver_go.P2p.Message.{PeerHostInfo, PeerMessage, user_Eq}
use conver_go.Cluster.Peers.{ClusterStore, add_new_peer, is_user_exists}
use conver_go.Cluster.Server.{Enveloper, Payload, ping_join, send_error}

-- A join that is refused, because its address does not decode or its user is there already, leaves
-- the store and gets no answer, where the enveloper never fails.
pub ping_join-refused :
    {E : Type 0} (cs : ClusterStore) (id : PeerHostInfo) (enveloper : Enveloper E)
    (decode : Text → Result E Text) (msg : PeerMessage)
    → ((key : PeerMessage) (payload : Payload) → (enveloper key payload).1 ≡ none)
    → ((e : E) × (decode msg.payload ≡ err e)) ⊎ (is_user_exists cs msg.info.user ≡ true)
    → ping_join cs id enveloper decode msg ≡ (cs, none)
unfolding ping_join send_error add_new_peer
ping_join-refused cs id enveloper decode msg works (inl (e, f)) =
    simp (ping_join, send_error, f, works)
ping_join-refused cs id enveloper decode msg works (inr there) =
    elim (Result-cases (decode msg.payload)) [
      | inl (e, f) ↦ simp (ping_join, send_error, f, works)
      | inr (address, f) ↦ simp (ping_join, send_error, add_new_peer, f, there, works)
    ]
