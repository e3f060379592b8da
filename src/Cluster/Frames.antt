-- ===== src/Cluster/Frames.antt =====
-- The datagrams between nodes in cluster/cluster_server.go: two bytes for the type, two for the length
-- of the rest, and the rest.
pub mod RoundTrip
pub mod Fragments
use mqtt_server_go.Prelude.{
  ℕ, zero, suc, ◌+◌, ◌-◌, ◌%◌, ◌^◌, List, [], ◌∷◌, ◌++◌, Bytes, length, Bool, true, false, Option,
  none, some, Outcome, ok, stuck, ◌>>=◌, index_at, slice, ltb, ◌==◌, if◌then◌else◌,
}
use mqtt_server_go.ProtocolStack.Packet.{word_bytes, read_word}
use mqtt_server_go.ProtocolStack.Publish.{MqttPacketPublishData}
use mqtt_server_go.Cluster.Message.{
  UdpAddr, ClusterClientInfo, RoutingCommunicateMsg, text, publish_data, client_info, udp_addr,
  max_udp_data_len, cluster_heart_msg, cluster_public_msg, cluster_login_msg,
  cluster_client_info_msg, cluster_msg_publish_dispatch, cluster_msg_login_notify,
  cluster_msg_login_info_notify,
}

-- `binary.BigEndian.PutUint16` for both words, and the bytes behind them.
unfoldable pub frame : ℕ → Bytes → Bytes
frame msg_type rest = (word_bytes msg_type ++ word_bytes (length rest % 2 ^ 16)) ++ rest

unfoldable pub build_cluster_heart_msg : Bytes
build_cluster_heart_msg = word_bytes cluster_heart_msg ++ word_bytes 0

unfoldable pub build_cluster_publish_msg : Bytes → Bytes
build_cluster_publish_msg pubdata = frame cluster_public_msg pubdata

unfoldable pub build_cluster_login_msg : Bytes → Bytes
build_cluster_login_msg client_id = frame cluster_login_msg client_id

-- The loop of `buildClusterLoginInfoMsg`, on fuel. It makes `msg` anew in each round; `msg_silce` is
-- never changed.
unfoldable pub fragment_loop : ℕ → Bytes → ℕ → Bool → Bytes → List Bytes → Outcome (List Bytes)
fragment_loop zero info index last_pkt msg msg_silce = stuck
fragment_loop (suc fuel) info index last_pkt msg msg_silce =
    if ltb index (length info)
    then (do
      let more = ltb max_udp_data_len (length info - index)
      let leng = if more then max_udp_data_len else length info - index
      let last_pkt = if more then last_pkt else true
      part ← slice info index (index + leng)
      let head = word_bytes cluster_client_info_msg ++ word_bytes ((leng + 1) % 2 ^ 16)
      let msg = (head ++ (if last_pkt then 1 else 0) ∷ []) ++ part
      fragment_loop fuel info (index + leng) last_pkt msg msg_silce)
    else ok msg_silce

unfoldable pub build_cluster_login_info_msg : Bytes → Outcome (List Bytes)
build_cluster_login_info_msg info = fragment_loop (length info + 1) info 0 false [] []

-- A message to the routine of the nodes, or to the dispatcher.
pub data Handed : Type 0 where
  cycle_ch : RoutingCommunicateMsg → Handed
  dispatch_ch : RoutingCommunicateMsg → Handed

-- `json.Unmarshal` of the two types, where it succeeds
module _ (unmarshal_publish : Bytes → Option MqttPacketPublishData)
    (unmarshal_info : Bytes → Option ClusterClientInfo) where
  abbrev pub published : Bytes → Option MqttPacketPublishData → List Handed
  published from none = []
  published from (some p) =
      dispatch_ch (record {
        msg_type = cluster_msg_publish_dispatch;
        msg_from = from;
        msg_body = publish_data p;
      })
      ∷ []

  abbrev pub informed : Bytes → Option ClusterClientInfo → List Handed
  informed from none = []
  informed from (some info) =
      dispatch_ch (record {
        msg_type = cluster_msg_login_info_notify;
        msg_from = from;
        msg_body = client_info info;
      })
      ∷ []

  -- CLUSTER_CLIENT_INFO_MSG: `client_info_msg` has the fragments so far.
  unfoldable pub process_fragment : Bytes → Bytes → ℕ → UdpAddr → Outcome (Bytes × List Handed)
  process_fragment client_info_msg buf length addr = do
    last_pkt ← index_at buf 4
    part ← slice buf 5 length
    let all = client_info_msg ++ part
    if last_pkt == 1 then ok ([], informed addr.name (unmarshal_info all)) else ok (all, [])

  -- The switch, for a datagram whose length agrees.
  unfoldable pub process_frame : ℕ → Bytes → Bytes → ℕ → UdpAddr → Outcome (Bytes × List Handed)
  process_frame msg_type client_info_msg buf length addr =
      if msg_type == cluster_heart_msg
      then ok (
        client_info_msg,
        cycle_ch (record { msg_type = cluster_heart_msg; msg_from = []; msg_body = udp_addr addr })
            ∷ [],
      )
      else if msg_type == cluster_public_msg
      then (do
        msg_body ← slice buf 4 length
        ok (client_info_msg, published addr.name (unmarshal_publish msg_body)))
      else if msg_type == cluster_login_msg
      then (do
        login_client_id ← slice buf 4 length
        ok (
          client_info_msg,
          dispatch_ch (record {
            msg_type = cluster_msg_login_notify;
            msg_from = addr.name;
            msg_body = text login_client_id;
          })
              ∷ [],
        ))
      else if msg_type == cluster_client_info_msg
      then process_fragment client_info_msg buf length addr
      else ok (client_info_msg, [])

  -- `msgLen+4` is a sum of two words.
  unfoldable pub process_cluster_node_msg :
      Bytes → Bytes → ℕ → UdpAddr → Outcome (Bytes × List Handed)
  process_cluster_node_msg client_info_msg buf length addr = do
    msg_type ← read_word buf 0
    msg_len ← read_word buf 2
    if length == (msg_len + 4) % 2 ^ 16
        then process_frame msg_type client_info_msg buf length addr
        else ok (client_info_msg, [])
