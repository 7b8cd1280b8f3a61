-- ===== src/Cluster/Membership/Alignment.antt =====
-- After `alignWithPeersData` of cluster/cvrdtpeer.go the connections are those of the list.
use conver_go.Base.{
  Bool, Bool-cases, List, Map, Option, Outcome, Outcome-cases, Result, [], ap, arith, error_absurd,
  false, fst, has, if-false, if-true, inl, inr, keys, lookup, none, not, out_of_fuel, panic, refl,
  ret, ret_inj, some, subst, sym, text_Eq, true, ℕ, ◌&&◌, ◌==◌, ◌>>=◌, ◌||◌, ◌∙◌, ◌∷◌, ◌≡◌,
}
use conver_go.P2p.Message.{PeerHostInfo, info_Eq}
use conver_go.P2p.Peer.{TcpPeer}
use conver_go.P2p.Transport.{
  TcpLayer, TransportError, get_targets, is_peer_present, remove_peer, remove_target,
}
use conver_go.P2p.Transport.Targets.{remove_peer-lookup}
use conver_go.Cluster.Membership.{
  align_with_peers_data, contains, disconnect_from, drop_old, forgive_missing, is_new_peer,
  pair_new,
}
use conver_go.Cluster.Membership.Pairing.{pair_new-present}

removed_present :
    {D E : Type 0} (t t' : TcpLayer D E) (v key : PeerHostInfo)
    → remove_peer t v ≡ ret t'
    → is_peer_present t' key ≡ (not (v == key) && is_peer_present t key)
unfolding is_peer_present has
removed_present t t' v key h = elim (Bool-cases (v == key)) [
  | inl e ↦ ground (arith, (remove_peer-lookup t t' v h).0 key, e)
  | inr e ↦ ground (arith, (remove_peer-lookup t t' v h).0 key, e)
]

absent_present :
    {D E : Type 0} (t : TcpLayer D E) (v key : PeerHostInfo)
    → is_peer_present t v ≡ false
    → is_peer_present t key ≡ (not (v == key) && is_peer_present t key)
absent_present t v key gone = elim (Bool-cases (v == key)) [
  | inl e ↦
      subst (λ k. is_peer_present t k ≡ false) ((info_Eq.equal_iff v key).0 e) gone
      ∙ sym (ap (λ b. not b && is_peer_present t key) e)
  | inr e ↦ sym (ap (λ b. not b && is_peer_present t key) e)
]

-- What removing without an error does to the targets.
disconnect_from-present :
    {D E : Type 0} (t t' : TcpLayer D E) (v key : PeerHostInfo)
    → disconnect_from t v ≡ ret (t', none)
    → is_peer_present t' key ≡ (not (v == key) && is_peer_present t key)
unfolding disconnect_from remove_target forgive_missing
disconnect_from-present {D} {E} t t' v key h = elim (Bool-cases (is_peer_present t v)) [
  | inl there ↦ elim (Outcome-cases (remove_peer t v)) [
    | inl (u, e) ↦
        (let done : disconnect_from t v ≡ ret (u, none) =
            simp (disconnect_from, remove_target, there, e) in
          ap (λ w. is_peer_present w key) (sym (ended u done)) ∙ removed_present t u v key e)
    | inr (inl e) ↦ absurd (
        let w : panic ≡ ret (t', none) =
          sym (simp (disconnect_from, remove_target, there, e)) ∙ h in
        cc)
    | inr (inr e) ↦ absurd (
        let w : out_of_fuel ≡ ret (t', none) =
          sym (simp (disconnect_from, remove_target, there, e)) ∙ h in
        cc)
  ]
  | inr gone ↦
      (let done : disconnect_from t v ≡ ret (t, none) =
          simp (disconnect_from, remove_target, gone) in
        ap (λ w. is_peer_present w key) (sym (ended t done)) ∙ absent_present t v key gone)
]
  where
    ended : (u : TcpLayer D E) → disconnect_from t v ≡ ret (u, none) → u ≡ t'
    ended u done = ap fst (ret_inj (sym done ∙ h))

keep_skipped :
    (a c k p : Bool)
    → (a ≡ true → k ≡ true)
    → (not (c && not k) && p) ≡ (not ((a || c) && not k) && p)
keep_skipped true c k p h = ground (arith, h refl)
keep_skipped false c k p h = refl

keep_dropped :
    (a c k p : Bool)
    → (a ≡ true → k ≡ false)
    → (not (c && not k) && (not a && p)) ≡ (not ((a || c) && not k) && p)
keep_dropped true c k p h = ground (arith, h refl)
keep_dropped false c k p h = refl

-- The loop that removes keeps, of the targets of before, those of the list.
drop_old-present :
    {D E : Type 0} (id : PeerHostInfo) (new_peer_list vs : List PeerHostInfo) (t t' : TcpLayer D E)
    (key : PeerHostInfo)
    → drop_old id new_peer_list vs t ≡ ret (t', none)
    → is_peer_present t' key
      ≡ (not (contains key vs && not (is_new_peer id new_peer_list key)) && is_peer_present t key)
unfolding drop_old contains
drop_old-present id new_peer_list [] t t' key h =
    ap (λ u. is_peer_present u key) (sym (ap fst (ret_inj h)))
drop_old-present {D} {E} id new_peer_list (v ∷ vs) t t' key h =
    elim (Bool-cases (is_new_peer id new_peer_list v)) [
      | inl e ↦
          (let next : drop_old id new_peer_list vs t ≡ ret (t', none) = sym (if-true _ _ e) ∙ h in
            drop_old-present id new_peer_list vs t t' key next
            ∙ keep_skipped (v == key) (contains key vs) (is_new_peer id new_peer_list key)
                (is_peer_present t key) (alike true e))
      | inr e ↦
          (let tried : (disconnect_from t v >>= dropped_then) ≡ ret (t', none) =
              sym (if-false _ _ e) ∙ h in
            let (u, fine, next) = settle (disconnect_from t v) tried in
            drop_old-present id new_peer_list vs u t' key next
            ∙ ap (λ p. not (contains key vs && not (is_new_peer id new_peer_list key)) && p)
                (disconnect_from-present t u v key fine)
            ∙ keep_dropped (v == key) (contains key vs) (is_new_peer id new_peer_list key)
                (is_peer_present t key) (alike false e))
    ]
  where
    alike :
        (b : Bool)
        → is_new_peer id new_peer_list v ≡ b
        → (v == key) ≡ true
        → is_new_peer id new_peer_list key ≡ b
    alike b e same =
        subst (λ w. is_new_peer id new_peer_list w ≡ b) ((info_Eq.equal_iff v key).0 same) e

    dropped_then :
        TcpLayer D E × Option (TransportError E)
        → Outcome (TcpLayer D E × Option (TransportError E))
    dropped_then r = elim r.1 [
      | some e ↦ ret (r.0, some e)
      | none ↦ drop_old id new_peer_list vs r.0
    ]

    settle :
        (o : Outcome (TcpLayer D E × Option (TransportError E)))
        → (o >>= dropped_then) ≡ ret (t', none)
        → (u : TcpLayer D E) × (o ≡ ret (u, none))
          × (drop_old id new_peer_list vs u ≡ ret (t', none))
    settle (ret (u, none)) k = (u, refl, k)
    settle (ret (u, some e)) k = error_absurd (ret_inj k)
    settle panic k = cc
    settle out_of_fuel k = cc

contains-keys : (m : Map PeerHostInfo ℕ) (key : PeerHostInfo) → contains key (keys m) ≡ has key m
unfolding contains has lookup
contains-keys [] key = refl
contains-keys ((k, v) ∷ m) key = elim (Bool-cases (k == key)) [
  | inl e ↦ ground (arith, e)
  | inr e ↦ ground (arith, e, contains-keys m key)
]

aligned :
    (p l i : Bool) → (not (p && not (not i && l)) && ((l && not (i || p)) || p)) ≡ (not i && l)
aligned true true true = refl
aligned true true false = refl
aligned true false true = refl
aligned true false false = refl
aligned false true true = refl
aligned false true false = refl
aligned false false true = refl
aligned false false false = refl

-- An alignment without an error leaves exactly the targets of the list that are not the host itself.
pub align_with_peers_data-targets :
    {D E : Type 0} (dial : PeerHostInfo → Result E (TcpPeer E)) (id : PeerHostInfo)
    (new_peer_list : List PeerHostInfo) (t t' : TcpLayer D E)
    → align_with_peers_data dial id new_peer_list t ≡ ret (t', none)
    → (key : PeerHostInfo)
    → is_peer_present t' key ≡ (not (id == key) && contains key new_peer_list)
unfolding align_with_peers_data is_new_peer get_targets is_peer_present
align_with_peers_data-targets {D} {E} dial id new_peer_list t t' h key =
    let (u, paired_all, dropped_all) =
      settle (pair_new dial id (get_targets t) new_peer_list t) refl h in
    drop_old-present id new_peer_list (get_targets t) u t' key dropped_all
    ∙ ap (λ p. not (contains key (get_targets t) && not (is_new_peer id new_peer_list key)) && p)
        (pair_new-present dial id (get_targets t) new_peer_list t u key paired_all)
    ∙ ap
        (λ c.
          not (c && not (not (id == key) && contains key new_peer_list))
          && ((contains key new_peer_list && not ((id == key) || c)) || is_peer_present t key))
        (contains-keys t.peers key)
    ∙ aligned (is_peer_present t key) (contains key new_peer_list) (id == key)
  where
    settle :
        (r : TcpLayer D E × Option (TransportError E))
        → pair_new dial id (get_targets t) new_peer_list t ≡ r
        → (elim r.1 [
          | some e ↦ ret (r.0, some e)
          | none ↦ drop_old id new_peer_list (get_targets t) r.0
        ])
          ≡ ret (t', none)
        → (u : TcpLayer D E) × (pair_new dial id (get_targets t) new_peer_list t ≡ (u, none))
          × (drop_old id new_peer_list (get_targets t) u ≡ ret (t', none))
    settle (u, none) e k = (u, e, k)
    settle (u, some f) e k = error_absurd (ret_inj k)
