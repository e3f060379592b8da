-- ===== src/Cluster/Start/Arrivals.antt =====
-- A datagram for a message, and the buffer of 4096 bytes that the receiver reads it into.
use mqtt_server_go.Prelude.{
  ℕ, zero, suc, ◌+◌, ◌-◌, ◌%◌, ◌^◌, ◌<◌, ◌≤◌, ◌≡◌, length-take, slice_front, slice_advance, ◌==◌,
  refl, ap, ◌∙◌, arith, false, List, [], ◌∷◌, ◌++◌, append-nil, Bytes, length, take, Option, some,
  ok, ltb, le→ltb,
}
use mqtt_server_go.ProtocolStack.Packet.{word_bytes}
use mqtt_server_go.ProtocolStack.Packet.Words.{read_word-slice}
use mqtt_server_go.ProtocolStack.Publish.{MqttPacketPublishData}
use mqtt_server_go.Cluster.Message.{
  UdpAddr, ClusterClientInfo, publish_data, text, cluster_msg_login_notify, cluster_public_msg,
  cluster_msg_publish_dispatch,
}
use mqtt_server_go.Cluster.Frames.{
  frame, build_cluster_publish_msg, build_cluster_login_msg, process_cluster_node_msg, dispatch_ch,
  Handed,
}
use mqtt_server_go.Cluster.Frames.RoundTrip.{publish_arrives, login_arrives}
use mqtt_server_go.Cluster.Start.{
  buffer_size, zeros, read_from_udp, came, recv, start_cluster_server_recv,
}

take_all : (n : ℕ) (xs : Bytes) → length xs ≤ n → take n xs ≡ xs
take_all zero [] h = refl
take_all zero (x ∷ xs) h = absurd (omega arith)
take_all (suc n) [] h = refl
take_all (suc n) (x ∷ xs) h = ap (◌∷◌ x) (take_all n xs (omega arith))

length-publish_msg : (json : Bytes) → length (build_cluster_publish_msg json) ≡ length json + 4
unfolding build_cluster_publish_msg frame word_bytes
length-publish_msg json = omega arith

length-login_msg : (id : Bytes) → length (build_cluster_login_msg id) ≡ length id + 4
unfolding build_cluster_login_msg frame word_bytes
length-login_msg id = omega arith

below_differs : (a b : ℕ) → a < b → (a == b) ≡ false
below_differs a b h = ground arith

differs :
    (n len : ℕ)
    → len ≡ buffer_size
    → buffer_size < n + 4
    → n + 4 < 65536
    → (len == (n % 2 ^ 16 + 4) % 2 ^ 16) ≡ false
differs n len e long fits = below_differs len _ (omega arith)

-- The part of a longer datagram that the buffer has room for: the length in its head is the whole one.
take-publish_msg :
    (json : Bytes)
    → take buffer_size (build_cluster_publish_msg json)
      ≡ word_bytes cluster_public_msg ++ (word_bytes (length json % 2 ^ 16) ++ take 4092 json)
unfolding build_cluster_publish_msg frame word_bytes
take-publish_msg json = refl

module _ (unmarshal_publish : Bytes → Option MqttPacketPublishData)
    (unmarshal_info : Bytes → Option ClusterClientInfo) (before : Bytes) (addr : UdpAddr) where
  -- A datagram that the buffer has room for
  received :
      (payload before' : Bytes) (handed : List Handed)
      → 4 ≤ length payload
      → length payload ≤ buffer_size
      → process_cluster_node_msg unmarshal_publish unmarshal_info before
          (payload ++ zeros (buffer_size - length payload))
          (length payload)
          addr
        ≡ ok (before', handed)
      → start_cluster_server_recv unmarshal_publish unmarshal_info (came payload addr ∷ []) before
        ≡ ok (before', handed)
  unfolding start_cluster_server_recv read_from_udp recv
  received payload before' handed enough short run =
      rw
        (
          take_all buffer_size payload short,
          le→ltb (length payload) 4 enough,
          run,
          append-nil handed,
        )
        refl

  pub message_received :
      (p : MqttPacketPublishData) (json : Bytes)
      → unmarshal_publish json ≡ some p
      → length json + 4 ≤ buffer_size
      → start_cluster_server_recv unmarshal_publish unmarshal_info
          (came (build_cluster_publish_msg json) addr ∷ [])
          before
        ≡ ok (
          before,
          dispatch_ch (record {
            msg_type = cluster_msg_publish_dispatch;
            msg_from = addr.name;
            msg_body = publish_data p;
          })
              ∷ [],
        )
  message_received p json e short =
      let size = length-publish_msg json in
      received (build_cluster_publish_msg json) before _ (omega (arith, size)) (omega (arith, size))
        (publish_arrives unmarshal_publish unmarshal_info before addr p json _ e (omega arith))

  pub login_received :
      (client_id : Bytes)
      → length client_id + 4 ≤ buffer_size
      → start_cluster_server_recv unmarshal_publish unmarshal_info
          (came (build_cluster_login_msg client_id) addr ∷ [])
          before
        ≡ ok (
          before,
          dispatch_ch (record {
            msg_type = cluster_msg_login_notify;
            msg_from = addr.name;
            msg_body = text client_id;
          })
              ∷ [],
        )
  login_received client_id short =
      let size = length-login_msg client_id in
      received (build_cluster_login_msg client_id) before _ (omega (arith, size))
        (omega (arith, size))
        (login_arrives unmarshal_publish unmarshal_info before addr client_id _ (omega arith))

  pub message_cut :
      (json : Bytes)
      → buffer_size < length json + 4
      → length json + 4 < 65536
      → start_cluster_server_recv unmarshal_publish unmarshal_info
          (came (build_cluster_publish_msg json) addr ∷ [])
          before
        ≡ ok (before, [])
  unfolding start_cluster_server_recv read_from_udp recv process_cluster_node_msg
  message_cut json long fits =
      let part = take buffer_size (build_cluster_publish_msg json) in
      let head = take-publish_msg json in
      let size : length part ≡ buffer_size = omega (
        arith,
        length-take buffer_size (build_cluster_publish_msg json),
        length-publish_msg json,
      ) in
      let whole = slice_front part (zeros (buffer_size - length part)) ∙ ap ok head in
      let behind_type =
        slice_advance _ 0 (length part) (word_bytes cluster_public_msg) _ 2 whole
          (unfold word_bytes in refl) in
      let differ : (length part == (length json % 2 ^ 16 + 4) % 2 ^ 16) ≡ false =
        differs (length json) (length part) size long fits in
      let enough : ltb (length part) 4 ≡ false = le→ltb (length part) 4 (omega (arith, size)) in
      rw
        (
          enough,
          read_word-slice _ 0 (length part) cluster_public_msg _ (omega arith) whole,
          read_word-slice _ 2 (length part) (length json % 2 ^ 16) _ (omega arith) behind_type,
          differ,
        )
        refl
