-- ===== src/P2p/Message/Format.antt =====
-- `Format` and `ParseHostInfoFromStr` of p2p/message.go against each other.
use conver_go.Base.{
  All, Bool-cases, List, Text, [], ap, arith, eqb, false, inl, inr, refl, some, text_Eq,
  text_eq_iff, ℕ, ◌++◌, ◌∙◌, ◌∷◌, ◌≡◌, ◌≢◌,
}
use conver_go.P2p.Message.{
  cluster_client_id, cluster_server_id, PeerHostInfo, underscore, format_info, create_new_host_info,
  prepend, split, info_of_parts, parse_host_info_from_str,
}

-- No byte of the text is the separator.
unfoldable pub Plain : Text → Type 0
Plain s = All (λ c. eqb c underscore ≡ false) s

split-Plain : (s : Text) → Plain s → split s underscore ≡ s ∷ []
unfolding split prepend Plain
split-Plain [] h = refl
split-Plain (c ∷ s) h = rw (h.0, split-Plain s h.1) refl

split_sep :
    (s t : Text) → Plain s → split (s ++ (underscore ∷ t)) underscore ≡ s ∷ split t underscore
unfolding split prepend Plain
split_sep [] t h = refl
split_sep (c ∷ s) t h = rw (h.0, split_sep s t h.1) refl

-- Reading the text form of a peer gives the peer back, whatever special id the caller expects,
-- when no field of it has an underscore.
pub parse-format_info :
    (info : PeerHostInfo) (special_id : Text)
    → Plain info.id
    → Plain info.user.name
    → Plain info.user.address
    → parse_host_info_from_str (format_info info) special_id ≡ some info
unfolding parse_host_info_from_str format_info info_of_parts create_new_host_info
parse-format_info info special_id p q r =
    rw
      (
        split_sep info.id (info.user.name ++ (underscore ∷ info.user.address)) p,
        split_sep info.user.name info.user.address q,
        split-Plain info.user.address r,
      )
      refl

join : List Text → Text
join [] = []
join (s ∷ []) = s
join (s ∷ t ∷ ss) = s ++ (underscore ∷ join (t ∷ ss))

join-prepend : (c : ℕ) (parts : List Text) → join (prepend c parts) ≡ c ∷ join parts
unfolding join prepend
join-prepend c [] = refl
join-prepend c (s ∷ []) = refl
join-prepend c (s ∷ t ∷ ss) = refl

split_nonempty :
    (s : Text) → (part : Text) × (parts : List Text) × (split s underscore ≡ part ∷ parts)
unfolding split prepend
split_nonempty [] = ([], [], refl)
split_nonempty (c ∷ s) =
    let (part, parts, e) = split_nonempty s in
    elim (Bool-cases (eqb c underscore)) [
      | inl h ↦ ([], split s underscore, rw h refl)
      | inr h ↦ (c ∷ part, parts, rw (h, e) refl)
    ]

join-split : (s : Text) → join (split s underscore) ≡ s
unfolding split join
join-split [] = refl
join-split (c ∷ s) =
    let (part, parts, e) = split_nonempty s in
    elim (Bool-cases (eqb c underscore)) [
      | inl h ↦ ground (arith, h, e, join-split s)
      | inr h ↦ rw h (join-prepend c (split s underscore) ∙ ap (◌∷◌ c) (join-split s))
    ]

format_parts :
    (parts : List Text) (special_id : Text) (info : PeerHostInfo)
    → special_id ≢ cluster_client_id
    → special_id ≢ cluster_server_id
    → info_of_parts parts special_id ≡ some info
    → format_info info ≡ join parts
unfolding info_of_parts create_new_host_info format_info join
format_parts [] special_id info p q h = ground arith
format_parts (a ∷ []) special_id info p q h = ground arith
format_parts (a ∷ b ∷ []) special_id info p q h = ground (
  arith,
  p,
  q,
  h,
  text_eq_iff special_id cluster_client_id,
  text_eq_iff special_id cluster_server_id,
)
format_parts (a ∷ b ∷ c ∷ []) special_id info p q h = ground (arith, h)
format_parts (a ∷ b ∷ c ∷ d ∷ rest) special_id info p q h = ground arith

-- A text that is read as a peer while none of the two cluster roles is expected is the text form
-- of that peer.
pub format_info-parse :
    (s special_id : Text) (info : PeerHostInfo)
    → special_id ≢ cluster_client_id
    → special_id ≢ cluster_server_id
    → parse_host_info_from_str s special_id ≡ some info
    → format_info info ≡ s
unfolding parse_host_info_from_str
format_info-parse s special_id info p q h =
    format_parts (split s underscore) special_id info p q h ∙ join-split s
