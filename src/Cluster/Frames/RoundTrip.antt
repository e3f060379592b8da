-- ===== src/Cluster/Frames/RoundTrip.antt =====
-- A datagram that a node builds is what another node hands on.
use mqtt_server_go.Prelude.{
  ℕ, true, ◌+◌, ◌%◌, ◌^◌, ◌<◌, ◌≡◌, refl, ap, ◌∙◌, arith, [], ◌∷◌, ◌++◌, append_assoc, Bytes,
  length, Option, some, ok, slice, slice_front, slice_advance, ◌==◌,
}
use mqtt_server_go.ProtocolStack.Packet.{word_bytes}
use mqtt_server_go.ProtocolStack.Packet.Words.{read_word-slice}
use mqtt_server_go.ProtocolStack.Publish.{MqttPacketPublishData}
use mqtt_server_go.Cluster.Message.{
  UdpAddr, ClusterClientInfo, text, udp_addr, publish_data, cluster_heart_msg, cluster_public_msg,
  cluster_login_msg, cluster_msg_publish_dispatch, cluster_msg_login_notify,
}
use mqtt_server_go.Cluster.Frames.{
  frame, build_cluster_heart_msg, build_cluster_publish_msg, build_cluster_login_msg, process_frame,
  process_cluster_node_msg, cycle_ch, dispatch_ch,
}

module _ (unmarshal_publish : Bytes → Option MqttPacketPublishData)
    (unmarshal_info : Bytes → Option ClusterClientInfo) (before : Bytes) (addr : UdpAddr) where
  module _ (msg_type : ℕ) (rest junk : Bytes) (t : msg_type < 65536)
      (fits : length rest + 4 < 65536) where
    abbrev buf : Bytes
    buf = frame msg_type rest ++ junk

    abbrev len : ℕ
    len = length (frame msg_type rest)

    len_lem : len ≡ length rest + 4
    unfolding frame word_bytes
    len_lem = omega arith

    whole :
        slice buf 0 len ≡ ok (word_bytes msg_type ++ (word_bytes (length rest % 2 ^ 16) ++ rest))
    unfolding frame
    whole =
        slice_front (frame msg_type rest) junk
        ∙ ap ok (append_assoc (word_bytes msg_type) (word_bytes (length rest % 2 ^ 16)) rest)

    behind_type : slice buf 2 len ≡ ok (word_bytes (length rest % 2 ^ 16) ++ rest)
    behind_type =
        slice_advance buf 0 len (word_bytes msg_type) _ 2 whole (unfold word_bytes in refl)

    pub behind_head : slice buf 4 len ≡ ok rest
    behind_head =
        slice_advance buf 2 len (word_bytes (length rest % 2 ^ 16)) _ 4 behind_type
          (unfold word_bytes in refl)

    pub frame_lem :
        process_cluster_node_msg unmarshal_publish unmarshal_info before buf len addr
        ≡ process_frame unmarshal_publish unmarshal_info msg_type before buf len addr
    unfolding process_cluster_node_msg
    frame_lem =
        let same : (len == (length rest % 2 ^ 16 + 4) % 2 ^ 16) ≡ true = ground (arith, len_lem) in
        rw
          (
            read_word-slice buf 0 len msg_type _ t whole,
            read_word-slice buf 2 len (length rest % 2 ^ 16) rest (omega arith) behind_type,
            same,
          )
          refl

  -- For JSON text that a datagram can hold and that is read as a message: the datagram that is built
  -- for the text hands that message to the dispatcher, with the sender's address, whatever is behind it
  -- in the buffer, and leaves the fragments so far as they are.
  pub publish_arrives :
      (p : MqttPacketPublishData) (json junk : Bytes)
      → unmarshal_publish json ≡ some p
      → length json + 4 < 65536
      → process_cluster_node_msg unmarshal_publish unmarshal_info before
          (build_cluster_publish_msg json ++ junk)
          (length (build_cluster_publish_msg json))
          addr
        ≡ ok (
          before,
          dispatch_ch (record {
            msg_type = cluster_msg_publish_dispatch;
            msg_from = addr.name;
            msg_body = publish_data p;
          })
              ∷ [],
        )
  unfolding build_cluster_publish_msg process_frame
  publish_arrives p json junk e fits =
      frame_lem cluster_public_msg json junk (omega arith) fits
      ∙ rw (behind_head cluster_public_msg json junk (omega arith) fits, e) refl

  -- For a client id that a datagram can hold: the datagram that is built for a login hands the id to the
  -- dispatcher, with the sender's address, and leaves the fragments so far as they are.
  pub login_arrives :
      (client_id junk : Bytes)
      → length client_id + 4 < 65536
      → process_cluster_node_msg unmarshal_publish unmarshal_info before
          (build_cluster_login_msg client_id ++ junk)
          (length (build_cluster_login_msg client_id))
          addr
        ≡ ok (
          before,
          dispatch_ch (record {
            msg_type = cluster_msg_login_notify;
            msg_from = addr.name;
            msg_body = text client_id;
          })
              ∷ [],
        )
  unfolding build_cluster_login_msg process_frame
  login_arrives client_id junk fits =
      frame_lem cluster_login_msg client_id junk (omega arith) fits
      ∙ rw (behind_head cluster_login_msg client_id junk (omega arith) fits) refl

  -- The datagram that is built for a heartbeat hands the sender's address to the routine of the nodes.
  pub heart_arrives :
      (junk : Bytes)
      → process_cluster_node_msg unmarshal_publish unmarshal_info before
          (build_cluster_heart_msg ++ junk)
          (length build_cluster_heart_msg)
          addr
        ≡ ok (
          before,
          cycle_ch
                (record { msg_type = cluster_heart_msg; msg_from = []; msg_body = udp_addr addr })
              ∷ [],
        )
  unfolding build_cluster_heart_msg frame word_bytes process_frame
  heart_arrives junk = frame_lem cluster_heart_msg [] junk (omega arith) (omega arith)
