-- ===== src/Cluster/Server.antt =====
-- cluster/server.go: the handlers of a cluster server, over the store of its peers. The enveloper
-- gives a message and an error, as Go does; what a handler gives to `session.Send` is its answer.
pub mod Joins
use conver_go.Base.{List, Option, Result, Text, [], codes, err, none, ok, some}
use conver_go.P2p.Message.{PeerHostInfo, PeerMessage, get_peer_metadata}
use conver_go.Cluster.Peers.{ClusterStore, add_new_peer, remove_peer, retrieve_current_peers}

-- What an enveloper is given besides the key.
pub data Payload : Type 0 where
  no_payload : Payload
  peers_payload : List PeerHostInfo → Payload
  address_payload : Text → Payload

abbrev pub Enveloper : Type 0 → Type 0
Enveloper E = PeerMessage → Payload → PeerMessage × Option E

abbrev pub user_already_exists : Text
user_already_exists = codes "User already exists"

abbrev pub user_payload : Text
user_payload = codes "User payload was provided in the wrong format"

unfoldable pub answer : {E : Type 0} → PeerMessage × Option E → Option PeerMessage
answer (env, none) = some env
answer (env, some e) = none

-- The handler of `PING_RETRIEVE`.
unfoldable pub ping_retrieve :
    {E : Type 0} → ClusterStore → PeerHostInfo → Enveloper E → Option PeerMessage
ping_retrieve cs id enveloper =
    answer (enveloper (get_peer_metadata [] [] id []) (peers_payload (retrieve_current_peers cs)))

-- `sendError` of the handler of `PING_JOIN`.
unfoldable pub send_error : {E : Type 0} → PeerHostInfo → Enveloper E → Text → Option PeerMessage
send_error id enveloper text =
    let (res, e) = enveloper (get_peer_metadata [] text id []) no_payload in
    elim e [ some _ ↦ some res | none ↦ none ]

-- The handler of `PING_JOIN`; the address is read from the payload of the message.
unfoldable pub ping_join :
    {E : Type 0}
    → ClusterStore
    → PeerHostInfo
    → Enveloper E
    → (decode : Text → Result E Text) → PeerMessage
    → ClusterStore × Option PeerMessage
ping_join cs id enveloper decode msg = elim (decode msg.payload) [
  | err e ↦ (cs, send_error id enveloper user_payload)
  | ok peer_address ↦
      let (cs', result_peers) = add_new_peer cs msg.info peer_address in
      elim result_peers [
        | none ↦ (cs', send_error id enveloper user_already_exists)
        | some peers ↦
            (cs', answer (enveloper (get_peer_metadata [] [] id []) (peers_payload peers)))
      ]
]

-- The handler of `PEER_EXIT`.
unfoldable pub peer_exit : ClusterStore → PeerMessage → ClusterStore
peer_exit cs msg = (remove_peer cs msg.info).0
