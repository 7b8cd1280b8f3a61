-- ===== src/Cluster/Peers/Users.antt =====
-- The users of the cluster store of cluster/store.go.
use conver_go.Base.{
  Bool-cases, In, Map, Option-cases, Text, [], ap, arith, decimal, false, has, if-false, inl, inr,
  insert, lookup, lookup-insert, lookup-remove, none, refl, remove, some, text_Eq, true, values,
  ◌==◌, ◌∙◌, ◌∷◌, ◌≡◌,
}
use conver_go.P2p.Message.{UserData, PeerHostInfo, user_Eq, user_eq_iff, create_new_host_info}
use conver_go.Cluster.Peers.{
  ClusterStore, is_user_exists, retrieve_current_peers, next_id, add_new_peer, remove_peer,
}

In-values-insert :
    (user : UserData) (peer : PeerHostInfo) (m : Map UserData PeerHostInfo)
    → In peer (values (insert user peer m))
unfolding insert
In-values-insert user peer [] = inl refl
In-values-insert user peer ((j, w) ∷ m) = elim (Bool-cases (j == user)) [
  | inl e ↦ rw (insert, e) (inl refl)
  | inr ne ↦ rw (insert, ne) (inr (In-values-insert user peer m))
]

new_peer : ClusterStore → PeerHostInfo → Text → PeerHostInfo
new_peer cs info peer_address =
    create_new_host_info (decimal (next_id cs)) info.user.name peer_address

added : ClusterStore → PeerHostInfo → Text → ClusterStore
added cs info peer_address = record {
  auto_inc_id = next_id cs;
  client_created_peers = insert info.user (new_peer cs info peer_address) cs.client_created_peers;
}

add_new :
    (cs : ClusterStore) (info : PeerHostInfo) (peer_address : Text)
    → is_user_exists cs info.user ≡ false
    → add_new_peer cs info peer_address ≡ (
      added cs info peer_address,
      some (new_peer cs info peer_address ∷ retrieve_current_peers (added cs info peer_address)),
    )
unfolding add_new_peer added new_peer retrieve_current_peers
add_new cs info peer_address h = if-false _ _ h

not_there :
    (cs : ClusterStore) (user : UserData)
    → is_user_exists cs user ≡ false
    → lookup user cs.client_created_peers ≡ none
unfolding is_user_exists has
not_there cs user h = elim (Option-cases (lookup user cs.client_created_peers)) [
  | inl e ↦ e
  | inr (peer, e) ↦ absurd (ground (arith, e, h))
]

new_peer_lem :
    (cs : ClusterStore) (info : PeerHostInfo) (peer_address : Text)
    → new_peer cs info peer_address
      ≡ create_new_host_info (decimal (next_id cs)) info.user.name peer_address
unfolding new_peer
new_peer_lem cs info peer_address = refl

known :
    (cs : ClusterStore) (info : PeerHostInfo) (peer_address : Text)
    → is_user_exists (added cs info peer_address) info.user ≡ true
unfolding is_user_exists has added
known cs info peer_address =
    rw
      (
        is_user_exists,
        has,
        added,
        lookup-insert info.user info.user (new_peer cs info peer_address) cs.client_created_peers,
        (user_eq_iff info.user info.user).1 refl,
      )
      refl

inside :
    (cs : ClusterStore) (info : PeerHostInfo) (peer_address : Text)
    → In (new_peer cs info peer_address) (retrieve_current_peers (added cs info peer_address))
unfolding retrieve_current_peers added
inside cs info peer_address =
    In-values-insert info.user (new_peer cs info peer_address) cs.client_created_peers

remove_peer-added :
    (cs : ClusterStore) (info : PeerHostInfo) (peer_address : Text)
    → remove_peer (added cs info peer_address) info ≡ (
      record {
        auto_inc_id = next_id cs;
        client_created_peers =
            remove info.user
              (insert info.user (new_peer cs info peer_address) cs.client_created_peers);
      },
      some (new_peer cs info peer_address),
    )
unfolding remove_peer added
remove_peer-added cs info peer_address =
    rw
      (
        remove_peer,
        lookup-insert info.user info.user (new_peer cs info peer_address) cs.client_created_peers,
        (user_eq_iff info.user info.user).1 refl,
      )
      refl

-- A user that is new gets the next number as the id of its peer, at the address given, and is
-- known from then on. The list that is given back has the new peer in front of all the peers,
-- itself among them.
add_new_peer_lem :
    (cs : ClusterStore) (info : PeerHostInfo) (peer_address : Text)
    → is_user_exists cs info.user ≡ false
    → (cs' : ClusterStore) × (peer : PeerHostInfo) × (peer
        ≡ create_new_host_info (decimal (next_id cs)) info.user.name peer_address)
      × (add_new_peer cs info peer_address ≡ (cs', some (peer ∷ retrieve_current_peers cs')))
      × (is_user_exists cs' info.user ≡ true)
      × In peer (retrieve_current_peers cs')
add_new_peer_lem cs info peer_address h = (
  added cs info peer_address,
  new_peer cs info peer_address,
  new_peer_lem cs info peer_address,
  add_new cs info peer_address h,
  known cs info peer_address,
  inside cs info peer_address,
)

-- `RemovePeer` undoes `AddNewPeer` for a new user: it gives the new peer back, and every user is
-- known to the store as it was before. The number stays used.
remove_peer-add_new_peer :
    (cs : ClusterStore) (info : PeerHostInfo) (peer_address : Text)
    → is_user_exists cs info.user ≡ false
    → ((remove_peer (add_new_peer cs info peer_address).0 info).1
        ≡ some (create_new_host_info (decimal (next_id cs)) info.user.name peer_address))
      × ((user : UserData)
          → lookup user
              (remove_peer (add_new_peer cs info peer_address).0 info).0.client_created_peers
            ≡ lookup user cs.client_created_peers)
      × ((remove_peer (add_new_peer cs info peer_address).0 info).0.auto_inc_id ≡ next_id cs)
remove_peer-add_new_peer cs info peer_address new =
    let both : remove_peer (add_new_peer cs info peer_address).0 info ≡ _ =
      ap (λ r. remove_peer r.0 info) (add_new cs info peer_address new)
      ∙ remove_peer-added cs info peer_address in
    (
      ap (λ r. r.1) both ∙ ap some (new_peer_lem cs info peer_address),
      λ user. ap (λ r. lookup user r.0.client_created_peers) both ∙ back user,
      ap (λ r. r.0.auto_inc_id) both,
    )
  where
    back :
        (user : UserData)
        → lookup user (
            remove info.user
              (insert info.user (new_peer cs info peer_address) cs.client_created_peers))
          ≡ lookup user cs.client_created_peers
    back user = ground (
      arith,
      user_eq_iff info.user user,
      not_there cs info.user new,
      lookup-insert info.user user (new_peer cs info peer_address) cs.client_created_peers,
      lookup-remove info.user user
          (insert info.user (new_peer cs info peer_address) cs.client_created_peers),
    )
