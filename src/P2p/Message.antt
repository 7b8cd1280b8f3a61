-- ===== src/P2p/Message.antt =====
-- p2p/message.go: what identifies a peer, its text form, and the messages. `strings.Split` is
-- written out for a separator of one byte.
pub mod Format
use conver_go.Base.{
  Bool, Eq, List, Option, Text, [], arith, codes, eqb, if◌then◌else◌, none, some, text_Eq,
  text_eq_iff, true, ℕ, ◌&&◌, ◌++◌, ◌==◌, ◌↔◌, ◌∷◌, ◌≡◌,
}

pub record UserData : Type 0 where
  pub name : Text
  pub address : Text

pub record PeerHostInfo : Type 0 where
  pub id : Text
  pub user : UserData

-- Go's `==` on the two structs.
unfoldable pub user_eq : UserData → UserData → Bool
user_eq u v = (u.name == v.name) && (u.address == v.address)

unfoldable pub info_eq : PeerHostInfo → PeerHostInfo → Bool
info_eq i j = (i.id == j.id) && user_eq i.user j.user

abbrev pub underscore : ℕ
underscore = 95

abbrev pub cluster_client_id : Text
cluster_client_id = codes "Client"

abbrev pub cluster_server_id : Text
cluster_server_id = codes "Server"

-- `Format`
unfoldable pub format_info : PeerHostInfo → Text
format_info info = info.id ++ (underscore ∷ (info.user.name ++ (underscore ∷ info.user.address)))

unfoldable pub create_new_host_info : Text → Text → Text → PeerHostInfo
create_new_host_info id name address = record {
  id = id;
  user = record { name = name; address = address };
}

unfoldable pub get_info_from_user_data : Text → UserData → PeerHostInfo
get_info_from_user_data id user = create_new_host_info id user.name user.address

unfoldable pub create_client_info : UserData → PeerHostInfo
create_client_info user = get_info_from_user_data cluster_client_id user

unfoldable pub create_server_info : UserData → PeerHostInfo
create_server_info user = get_info_from_user_data cluster_server_id user

unfoldable pub generate_info_from_user_data : Text → PeerHostInfo → PeerHostInfo
generate_info_from_user_data id info = record { id = id; user = info.user }

unfoldable pub prepend : ℕ → List Text → List Text
prepend c [] = (c ∷ []) ∷ []
prepend c (part ∷ parts) = (c ∷ part) ∷ parts

unfoldable pub split : Text → ℕ → List Text
split [] sep = [] ∷ []
split (c ∷ s) sep = let rest = split s sep in if eqb c sep then [] ∷ rest else prepend c rest

-- What `ParseHostInfoFromStr` makes of the parts; `none` is its error.
unfoldable pub info_of_parts : List Text → Text → Option PeerHostInfo
info_of_parts (id ∷ name ∷ address ∷ []) special_id = some (create_new_host_info id name address)
info_of_parts (name ∷ address ∷ []) special_id =
    if special_id == cluster_client_id
    then some (create_client_info (record { name = name; address = address }))
    else if special_id == cluster_server_id
    then some (create_server_info (record { name = name; address = address }))
    else none
info_of_parts parts special_id = none

unfoldable pub parse_host_info_from_str : Text → Text → Option PeerHostInfo
parse_host_info_from_str info_str special_id = info_of_parts (split info_str underscore) special_id

-- `SessionFields` of a message, with `SeqNo`, an `int32`, as its 32 bits.
pub record SessionFields : Type 0 where
  pub topic_name : Text
  pub session_id : Text
  pub seq_no : ℕ

pub record PeerMessage : Type 0 where
  pub is_error : Text
  pub info : PeerHostInfo
  pub fields : SessionFields
  pub payload : Text

-- The key that `GetPeerMetadata` makes, in a message with a payload.
unfoldable pub get_peer_metadata : Text → Text → PeerHostInfo → Text → PeerMessage
get_peer_metadata topic is_error info payload = record {
  is_error = is_error;
  info = info;
  fields = record { topic_name = topic; session_id = []; seq_no = 0 };
  payload = payload;
}

pub user_eq_iff : (u v : UserData) → (user_eq u v ≡ true) ↔ (u ≡ v)
unfolding user_eq
user_eq_iff u v = ground (arith, text_eq_iff u.name v.name, text_eq_iff u.address v.address)

pub info_eq_iff : (i j : PeerHostInfo) → (info_eq i j ≡ true) ↔ (i ≡ j)
unfolding info_eq
info_eq_iff i j = ground (arith, text_eq_iff i.id j.id, user_eq_iff i.user j.user)

instance abbrev pub user_Eq : Eq UserData
user_Eq = record { equal = user_eq; equal_iff = user_eq_iff }

instance abbrev pub info_Eq : Eq PeerHostInfo
info_Eq = record { equal = info_eq; equal_iff = info_eq_iff }
