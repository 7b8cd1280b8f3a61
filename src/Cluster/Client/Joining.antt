-- ===== src/Cluster/Client/Joining.antt =====
-- A client of cluster/client.go that joins a cluster, with the answer of the server's store.
use conver_go.Base.{
  All, Bool, Bool-cases, List, Map, Option, Outcome, Result, Text, [], ap, arith, decimal, eqb, err,
  error_absurd, false, fst, has, if-false, if-true, inl, inr, insert, length, lookup, none, not, ok,
  out_of_fuel, panic, refl, ret, ret_inj, snd, some, some_inj, subst, sym, text_Eq, true, values, ℕ,
  ◌&&◌, ◌==◌, ◌>>=◌, ◌||◌, ◌∙◌, ◌∷◌, ◌≡◌,
}
use conver_go.P2p.Message.{PeerHostInfo, info_Eq, user_Eq, UserData, create_new_host_info}
use conver_go.P2p.Channel.{BroadcastError}
use conver_go.P2p.Peer.{TcpPeer}
use conver_go.P2p.Transport.{
  TcpLayer, TransportError, add_target, is_peer_present, new_tcp_transport, get_targets, broadcast,
  no_peers,
}
use conver_go.Cluster.Peers.{
  ClusterStore, add_new_peer, is_user_exists, retrieve_current_peers, next_id,
}
use conver_go.Cluster.Membership.{align_with_peers_data, contains}
use conver_go.P2p.Message.{UserData, create_new_host_info, PeerHostInfo}
use conver_go.Cluster.Client.{
  ClusterClient, align_peer_client, connect_to_cluster, join_peers, transport_failed, ClientError,
  broadcast_registry, diffuse_data, broadcast_failed,
}
use conver_go.Cluster.Membership.Alignment.{align_with_peers_data-targets}
use conver_go.P2p.Transport.Sends.{Sent, broadcast-Reports, Reports}

-- The connections of a replica are those of a list, without the replica itself.
unfoldable pub IsAligned : {D E : Type 0} → ClusterClient D E → List PeerHostInfo → Type 0
IsAligned c peers =
    (key : PeerHostInfo)
    → is_peer_present c.peer_transport key ≡ (not (c.peer_id == key) && contains key peers)

align_peer_client-IsAligned :
    {D E : Type 0} (dial : PeerHostInfo → Result E (TcpPeer E)) (peers : List PeerHostInfo)
    (c c' : ClusterClient D E)
    → align_peer_client dial peers c ≡ ret (c', none)
    → IsAligned c' peers × (c'.peer_id ≡ c.peer_id) × (c'.is_active ≡ c.is_active)
unfolding align_peer_client IsAligned
align_peer_client-IsAligned {D} {E} dial peers c c' h =
    settle (align_with_peers_data dial c.peer_id peers c.peer_transport) refl h
  where
    report :
        TcpLayer D E × Option (TransportError E)
        → Outcome (ClusterClient D E × Option (ClientError E))
    report r = ret (
      record c { peer_transport = r.0 },
      elim r.1 [ none ↦ none | some e' ↦ some (transport_failed e') ],
    )

    settle :
        (o : Outcome (TcpLayer D E × Option (TransportError E)))
        → align_with_peers_data dial c.peer_id peers c.peer_transport ≡ o
        → (o >>= report) ≡ ret (c', none)
        → ((key : PeerHostInfo)
            → is_peer_present c'.peer_transport key
              ≡ (not (c'.peer_id == key) && contains key peers))
          × (c'.peer_id ≡ c.peer_id)
          × (c'.is_active ≡ c.is_active)
    settle (ret (t, none)) e k =
        let same : record c { peer_transport = t } ≡ c' = ap fst (ret_inj k) in
        subst
          (λ u.
            ((key : PeerHostInfo)
              → is_peer_present u.peer_transport key
                ≡ (not (u.peer_id == key) && contains key peers))
            × (u.peer_id ≡ c.peer_id)
            × (u.is_active ≡ c.is_active))
          same (align_with_peers_data-targets dial c.peer_id peers c.peer_transport t e, refl, refl)
    settle (ret (t, some f)) e k = error_absurd (ret_inj k)
    settle panic e k = cc
    settle out_of_fuel e k = cc

-- A client that connects without an error is active, has the id that the server assigned, and its
-- replica is connected to exactly the other peers of the answer.
pub connect_to_cluster-IsAligned :
    {D E : Type 0} (dial : PeerHostInfo → Result E (TcpPeer E)) (assigned : PeerHostInfo)
    (others : List PeerHostInfo) (c c' : ClusterClient D E)
    → connect_to_cluster dial (ok (assigned ∷ others)) c ≡ ret (c', none)
    → (c'.is_active ≡ true) × (c'.peer_id ≡ assigned) × IsAligned c' others
unfolding connect_to_cluster join_peers
connect_to_cluster-IsAligned {D} {E} dial assigned others c c' h = elim (Bool-cases c.is_active) [
  | inl e ↦ error_absurd (ret_inj (sym (if-true _ _ e) ∙ h))
  | inr e ↦
      settle (add_target c.transport c.cluster_info (dial c.cluster_info))
        (sym (if-false _ _ e) ∙ h)
]
  where
    settle :
        (r : TcpLayer D E × Option (TransportError E))
        → (elim r.1 [
          | some e' ↦ ret (record c { transport = r.0 }, some (transport_failed e'))
          | none ↦ join_peers dial (ok (assigned ∷ others)) (record c { transport = r.0 })
        ])
          ≡ ret (c', none)
        → (c'.is_active ≡ true) × (c'.peer_id ≡ assigned) × IsAligned c' others
    settle (t, some f) k = error_absurd (ret_inj k)
    settle (t, none) k =
        let (good, who, active) =
          align_peer_client-IsAligned dial others
            (record c {
              transport = t;
              peer_id = assigned;
              peer_transport = new_tcp_transport;
              is_active = true;
            })
            c' k in
        (active, who, good)

contains-append_value :
    (m : Map UserData PeerHostInfo) (user : UserData) (info key : PeerHostInfo)
    → has user m ≡ false
    → contains key (values (insert user info m)) ≡ (contains key (values m) || (info == key))
unfolding insert has lookup contains
contains-append_value [] user info key h = ground arith
contains-append_value ((u, old) ∷ m) user info key h = elim (Bool-cases (u == user)) [
  | inl e ↦ absurd (ground (arith, h, e))
  | inr e ↦
      (let absent : has user m ≡ false = ground (arith, h, e) in
        ground (arith, e, contains-append_value m user info key absent))
]

-- A client whose user the server does not know, and which connects with the server's answer without an
-- error, is connected to exactly the peers that the server knew before, other than itself.
pub add_new_peer-joins :
    {D E : Type 0} (dial : PeerHostInfo → Result E (TcpPeer E)) (cs cs' : ClusterStore)
    (info : PeerHostInfo) (address : Text) (peers : List PeerHostInfo) (c c' : ClusterClient D E)
    → add_new_peer cs info address ≡ (cs', some peers)
    → connect_to_cluster dial (ok peers) c ≡ ret (c', none)
    → IsAligned c' (retrieve_current_peers cs)
unfolding add_new_peer is_user_exists retrieve_current_peers IsAligned
add_new_peer-joins {D} {E} dial cs cs' info address peers c c' added connected =
    elim (Bool-cases (is_user_exists cs info.user)) [
      | inl e ↦
          absurd (let w : none ≡ some peers = ap snd (sym (if-true (cs, none) _ e) ∙ added) in cc)
      | inr e ↦
          (let fresh : some (new_peer ∷ values known) ≡ some peers =
              ap snd (sym (if-false (cs, none) _ e) ∙ added) in
            let (active, who, good) =
              connect_to_cluster-IsAligned dial new_peer (values known) c c' (
                subst (λ ps. connect_to_cluster dial (ok ps) c ≡ ret (c', none))
                  (sym (some_inj fresh)) connected) in
            λ key.
              good key
              ∙ ap (λ b. not (c'.peer_id == key) && b)
                  (contains-append_value cs.client_created_peers info.user new_peer key e)
              ∙ ap
                  (λ id.
                    not (c'.peer_id == key)
                    && (contains key (values cs.client_created_peers) || (id == key)))
                  (sym who)
              ∙ other_than (c'.peer_id == key) (contains key (values cs.client_created_peers)))
    ]
  where
    new_peer : PeerHostInfo
    new_peer = create_new_host_info (decimal (next_id cs)) info.user.name address

    known : Map UserData PeerHostInfo
    known = insert info.user new_peer cs.client_created_peers

    other_than : (i l : Bool) → (not i && (l || i)) ≡ (not i && l)
    other_than true l = refl
    other_than false true = refl
    other_than false false = refl

-- Data that a client diffuses without an error has gone to each of its connections, and these are the
-- peers of the server's answer other than itself.
pub diffuse_data-IsAligned :
    {D E : Type 0} (dial : PeerHostInfo → Result E (TcpPeer E)) (encode : D → Result E Text)
    (write : ℕ → Text → Option E) (peers : List PeerHostInfo) (env : D) (c c' : ClusterClient D E)
    → diffuse_data dial encode write (ok peers) (ok env) c ≡ ret (c', none)
    → IsAligned c' peers
      × All (Sent encode write c'.peer_transport env) (get_targets c'.peer_transport)
unfolding diffuse_data broadcast_registry broadcast Reports
diffuse_data-IsAligned {D} {E} dial encode write peers env c c' h =
    elim (Bool-cases (not c.is_active)) [
      | inl e ↦ error_absurd (ret_inj (sym (if-true _ _ e) ∙ h))
      | inr e ↦ settle (align_peer_client dial peers c) refl (sym (if-false _ _ e) ∙ h)
    ]
  where
    next :
        ClusterClient D E × Option (ClientError E)
        → Outcome (ClusterClient D E × Option (ClientError E))
    next r = elim r.1 [
      | some e ↦ ret (r.0, some e)
      | none ↦ broadcast_registry encode write (ok env) r.0
    ]

    Done : ClusterClient D E → Type 0
    Done u = (u ≡ c') × All (Sent encode write u.peer_transport env) (get_targets u.peer_transport)

    tell :
        ClusterClient D E
        → Result
            (TransportError E)
            (List (ℕ × Text) × Option (BroadcastError PeerHostInfo (TransportError E)))
        → Outcome (ClusterClient D E × Option (ClientError E))
    tell u result = ret (
      u,
      elim result [
        | err e ↦ some (transport_failed e)
        | ok (log, failure) ↦ elim failure [ none ↦ none | some f ↦ some (broadcast_failed f) ]
      ],
    )

    told :
        (u : ClusterClient D E) (log : List (ℕ × Text))
        (failure : Option (BroadcastError PeerHostInfo (TransportError E)))
        → tell u (ok (log, failure)) ≡ ret (c', none)
        → Reports encode write u.peer_transport env (get_targets u.peer_transport) failure
        → Done u
    told u log none k all = (ap fst (ret_inj k), all)
    told u log (some f) k reports = error_absurd (ret_inj k)

    sent :
        (u : ClusterClient D E)
        → broadcast_registry encode write (ok env) u ≡ ret (c', none)
        → Done u
    sent u k = elim (Bool-cases (eqb (length u.peer_transport.peers) 0)) [
      | inl e ↦
          (let empty : broadcast encode write u.peer_transport env ≡ ret (err no_peers) =
              if-true _ _ e in
            error_absurd (ret_inj (sym (ap (λ o. o >>= tell u) empty) ∙ k)))
      | inr e ↦
          (let (log, failure, ran, reports) =
              broadcast-Reports encode write u.peer_transport env (ground (arith, e)) in
            told u log failure (sym (ap (λ o. o >>= tell u) ran) ∙ k) reports)
    ]

    settle :
        (o : Outcome (ClusterClient D E × Option (ClientError E)))
        → align_peer_client dial peers c ≡ o
        → (o >>= next) ≡ ret (c', none)
        → IsAligned c' peers
          × All (Sent encode write c'.peer_transport env) (get_targets c'.peer_transport)
    settle (ret (u, none)) e k =
        let (same, all) = sent u k in
        (
          subst (λ v. IsAligned v peers) same (align_peer_client-IsAligned dial peers c u e).0,
          subst (λ v. All (Sent encode write v.peer_transport env) (get_targets v.peer_transport))
              same all,
        )
    settle (ret (u, some f)) e k = error_absurd (ret_inj k)
    settle panic e k = cc
    settle out_of_fuel e k = cc
