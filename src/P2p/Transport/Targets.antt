-- ===== src/P2p/Transport/Targets.antt =====
-- The targets of a transport of p2p/communication.go, after a peer is added, removed, or all are.
use conver_go.Base.{
  Bool, Bool-cases, In, List, Map, Option, Option-cases, Outcome, Outcome-cases, [], ap, eq_refl,
  false, get_elem?, if-false, if-true, if◌then◌else◌, inl, inr, keys, lookup, lookup-remove, none,
  out_of_fuel, panic, refl, remove, ret, ret_inj, set, some, sym, text_Eq, true, ℕ, ◌==◌, ◌∙◌, ◌∷◌,
  ◌≡◌, ◌⊎◌,
}
use conver_go.P2p.Message.{PeerHostInfo, info_Eq}
use conver_go.P2p.Channel.{close_flag}
use conver_go.P2p.Peer.{TcpPeer, close}
use conver_go.P2p.Transport.{
  TcpLayer, at_peer, remove_peer, TransportError, close_layer, flag_closed, get_targets,
  remove_peers, shutdown,
}

pub at_peer-peers :
    {D E : Type 0} (f : TcpPeer E → Outcome (TcpPeer E)) (address : ℕ) (t t' : TcpLayer D E)
    → at_peer f address t ≡ ret t'
    → (t'.peers ≡ t.peers) × (t'.shutdown_flag ≡ t.shutdown_flag)
unfolding at_peer
at_peer-peers f address t t' h = elim (Option-cases (get_elem? t.heap address)) [
  | inl e ↦ absurd (let w : panic ≡ ret t' = sym (simp (at_peer, e)) ∙ h in cc)
  | inr (p, e) ↦ elim (Outcome-cases (f p)) [
    | inl (p', g) ↦
        (let same : record t { heap = set t.heap address p' } ≡ t' =
            ret_inj (sym (simp (at_peer, e, g)) ∙ h) in
          (sym (ap (λ u. u.peers) same), sym (ap (λ u. u.shutdown_flag) same)))
    | inr (inl g) ↦ absurd (let w : panic ≡ ret t' = sym (simp (at_peer, e, g)) ∙ h in cc)
    | inr (inr g) ↦ absurd (let w : out_of_fuel ≡ ret t' = sym (simp (at_peer, e, g)) ∙ h in cc)
  ]
]

-- A missing target reads as if it were removed.
missing :
    (m : Map PeerHostInfo ℕ) (addr key : PeerHostInfo)
    → lookup addr m ≡ none
    → lookup key m ≡ (if addr == key then none else lookup key m)
missing m addr key e = elim (Bool-cases (addr == key)) [
  | inl h ↦
      ap (λ k. lookup k m) (sym ((info_Eq.equal_iff addr key).0 h))
      ∙ e
      ∙ sym (if-true none (lookup key m) h)
  | inr h ↦ sym (if-false none (lookup key m) h)
]

-- A target that has been removed is gone, and the others keep their peers.
pub remove_peer-lookup :
    {D E : Type 0} (t t' : TcpLayer D E) (addr : PeerHostInfo)
    → remove_peer t addr ≡ ret t'
    → ((key : PeerHostInfo)
        → lookup key t'.peers ≡ (if addr == key then none else lookup key t.peers))
      × (t'.shutdown_flag ≡ t.shutdown_flag)
unfolding remove_peer
remove_peer-lookup t t' addr h = elim (Option-cases (lookup addr t.peers)) [
  | inl e ↦
      (let same : t ≡ t' = ret_inj (sym (simp (remove_peer, e)) ∙ h) in
        (
          λ key. ap (λ u. lookup key u.peers) (sym same) ∙ missing t.peers addr key e,
          sym (ap (λ u. u.shutdown_flag) same),
        ))
  | inr (address, e) ↦ elim (Outcome-cases (at_peer close address t)) [
    | inl (u, g) ↦
        (let (same, flag) = at_peer-peers close address t u g in
          let last : record u { peers = remove addr u.peers } ≡ t' =
            ret_inj (sym (simp (remove_peer, e, g)) ∙ h) in
          (
            λ key.
                ap (λ v. lookup key v.peers) (sym last)
                ∙ lookup-remove addr key u.peers
                ∙ ap (λ m. if addr == key then none else lookup key m) same,
            sym (ap (λ v. v.shutdown_flag) last) ∙ flag,
          ))
    | inr (inl g) ↦ absurd (let w : panic ≡ ret t' = sym (simp (remove_peer, e, g)) ∙ h in cc)
    | inr (inr g) ↦ absurd (let w : out_of_fuel ≡ ret t' = sym (simp (remove_peer, e, g)) ∙ h in cc)
  ]
]

remove_peers-lookup :
    {D E : Type 0} (addrs : List PeerHostInfo) (t t' : TcpLayer D E) (key : PeerHostInfo)
    → remove_peers t addrs ≡ ret t'
    → (lookup key t.peers ≡ none) ⊎ In key addrs
    → (lookup key t'.peers ≡ none) × (t'.shutdown_flag ≡ t.shutdown_flag)
unfolding remove_peers
remove_peers-lookup [] t t' key h (inl e) = (
  ap (λ u. lookup key u.peers) (sym (ret_inj h)) ∙ e,
  sym (ap (λ u. u.shutdown_flag) (ret_inj h)),
)
remove_peers-lookup [] t t' key h (inr m) = absurd m
remove_peers-lookup (addr ∷ addrs) t t' key h cause = elim (Outcome-cases (remove_peer t addr)) [
  | inl (u, e) ↦
      (let (found, flag) = remove_peer-lookup t u addr e in
        let next : remove_peers u addrs ≡ ret t' = sym (simp (remove_peers, e)) ∙ h in
        let (gone, flags) =
          remove_peers-lookup addrs u t' key next (elim (Bool-cases (addr == key)) [
            | inl same ↦ inl (found key ∙ if-true none (lookup key t.peers) same)
            | inr other ↦ elim cause [
              | inl absent ↦ inl (found key ∙ if-false none (lookup key t.peers) other ∙ absent)
              | inr (inl same) ↦ absurd (
                  let w : true ≡ false = sym ((info_Eq.equal_iff addr key).1 (sym same)) ∙ other in
                  cc)
              | inr (inr m) ↦ inr m
            ]
          ]) in
        (gone, flags ∙ flag))
  | inr (inl e) ↦ absurd (let w : panic ≡ ret t' = sym (simp (remove_peers, e)) ∙ h in cc)
  | inr (inr e) ↦ absurd (let w : out_of_fuel ≡ ret t' = sym (simp (remove_peers, e)) ∙ h in cc)
]

key-In : (m : Map PeerHostInfo ℕ) (key : PeerHostInfo) → (lookup key m ≡ none) ⊎ In key (keys m)
unfolding lookup
key-In [] key = inl refl
key-In ((k, v) ∷ m) key = elim (Bool-cases (k == key)) [
  | inl h ↦ inr (inl (sym ((info_Eq.equal_iff k key).0 h)))
  | inr h ↦ elim (key-In m key) [
    | inl e ↦ inl (if-false (some v) (lookup key m) h ∙ e)
    | inr m' ↦ inr (inr m')
  ]
]

no_keys : (m : Map PeerHostInfo ℕ) → ((key : PeerHostInfo) → lookup key m ≡ none) → m ≡ []
unfolding lookup
no_keys [] h = refl
no_keys ((k, v) ∷ m) h =
    absurd (let w : none ≡ some v = sym (h k) ∙ if-true (some v) (lookup k m) (eq_refl k) in cc)

close_layer_lem :
    {D E : Type 0} (u : TcpLayer D E) (shut : Bool)
    → u.shutdown_flag.is_shut_down ≡ shut
    → let r : TcpLayer D E × Option (TransportError E) =
        close_layer (if shut then none else some (record { is_shut_down = true })) u in
      (r.0.peers ≡ u.peers)
      × (r.0.shutdown_flag.is_shut_down ≡ true)
      × (r.1 ≡ (if shut then some flag_closed else none))
unfolding close_layer
close_layer_lem u true h = (refl, h, refl)
close_layer_lem u false h = (refl, refl, refl)

-- A shutdown that returns leaves no target and the flag closed; it reports no error when the flag was
-- open, and the error of a closed flag when it was closed.
shutdown_lem :
    {D E : Type 0} (t t' : TcpLayer D E) (e : Option (TransportError E))
    → shutdown t ≡ ret (t', e)
    → (get_targets t' ≡ [])
      × (t'.shutdown_flag.is_shut_down ≡ true)
      × (e ≡ (if t.shutdown_flag.is_shut_down then some flag_closed else none))
unfolding shutdown get_targets close_flag
shutdown_lem t t' e h = elim (Outcome-cases (remove_peers t (keys t.peers))) [
  | inl (u, ran) ↦
      (let emptied : u.peers ≡ [] =
          no_keys u.peers
            (λ key. (remove_peers-lookup (keys t.peers) t u key ran (key-In t.peers key)).0) in
        let last : close_layer (close_flag u.shutdown_flag) u ≡ (t', e) =
          ret_inj (sym (simp (shutdown, ran)) ∙ h) in
        let flag : u.shutdown_flag ≡ t.shutdown_flag =
          (remove_peers-lookup (keys t.peers) t u t.local_id ran (key-In t.peers t.local_id)).1 in
        let (same, closed_flag, reported) = close_layer_lem u u.shutdown_flag.is_shut_down refl in
        (
          ap keys (ap (λ r. r.0.peers) (sym last) ∙ same ∙ emptied),
          ap (λ r. r.0.shutdown_flag.is_shut_down) (sym last) ∙ closed_flag,
          ap (λ r. r.1) (sym last)
              ∙ reported
              ∙ ap (λ f. if f.is_shut_down then some flag_closed else none) flag,
        ))
  | inr (inl f) ↦ absurd (let w : panic ≡ ret (t', e) = sym (simp (shutdown, f)) ∙ h in cc)
  | inr (inr f) ↦ absurd (let w : out_of_fuel ≡ ret (t', e) = sym (simp (shutdown, f)) ∙ h in cc)
]
