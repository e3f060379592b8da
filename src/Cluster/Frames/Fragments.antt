-- ===== src/Cluster/Frames/Fragments.antt =====
-- A client's subscriptions and messages, in fragments: none is sent, and any that came would be joined.
use mqtt_server_go.Prelude.{
  ℕ, zero, suc, true, false, Bool, Bool-cases, inl, inr, ◌+◌, ◌-◌, ◌<◌, ◌≤◌, ◌≡◌, refl, arith, List,
  [], ◌∷◌, ◌++◌, Bytes, length, Option, Outcome, ok, ◌>>=◌, ltb, ltb→lt, slice_intro, if◌then◌else◌,
}
use mqtt_server_go.ProtocolStack.Publish.{MqttPacketPublishData}
use mqtt_server_go.Cluster.Message.{
  UdpAddr, ClusterClientInfo, max_udp_data_len, cluster_client_info_msg,
}
use mqtt_server_go.Cluster.Frames.{
  frame, fragment_loop, build_cluster_login_info_msg, Handed, process_cluster_node_msg,
}

-- The number of bytes that a round takes
abbrev taken : Bytes → ℕ → ℕ
taken info index =
    if ltb max_udp_data_len (length info - index) then max_udp_data_len else length info - index

taken_lem :
    (info : Bytes) (index : ℕ)
    → ltb index (length info) ≡ true
    → (0 < taken info index) × (index + taken info index ≤ length info)
taken_lem info index more = ground (arith, ltb→lt index (length info) more)

fragment_loop_lem :
    (fuel index : ℕ) (info msg : Bytes) (last_pkt : Bool) (msg_silce : List Bytes)
    → length info - index < fuel
    → fragment_loop fuel info index last_pkt msg msg_silce ≡ ok msg_silce
unfolding fragment_loop
fragment_loop_lem zero index info msg last_pkt msg_silce enough = absurd (omega arith)
fragment_loop_lem (suc fuel) index info msg last_pkt msg_silce enough =
    elim (Bool-cases (ltb index (length info))) [
      | inl more ↦
          let (some_taken, within) = taken_lem info index more in
          let next = index + taken info index in
          rw (more, slice_intro info index next (omega arith) within refl)
            (fragment_loop_lem fuel next info _ _ msg_silce
              (omega (arith, ltb→lt index (length info) more)))
      | inr done ↦ rw done refl
    ]

-- Whatever a client's information is, the builder of its datagrams ends, and returns none: so none is
-- sent to the other node.
pub no_fragments : (info : Bytes) → build_cluster_login_info_msg info ≡ ok []
unfolding build_cluster_login_info_msg
no_fragments info = fragment_loop_lem (length info + 1) 0 info [] false [] (omega arith)

-- A fragment as the builder means it: one byte that marks the last, and a part of the text.
unfoldable pub fragment : ℕ → Bytes → Bytes
fragment last part = frame cluster_client_info_msg (last ∷ part)

module _ (unmarshal_publish : Bytes → Option MqttPacketPublishData)
    (unmarshal_info : Bytes → Option ClusterClientInfo) (addr : UdpAddr) where
  -- The receiver, for one datagram after the other
  unfoldable pub receive : Bytes → List Bytes → Outcome (Bytes × List Handed)
  receive before [] = ok (before, [])
  receive before (d ∷ datagrams) =
      process_cluster_node_msg unmarshal_publish unmarshal_info before d (length d) addr
      >>= λ (before, handed).
          receive before datagrams >>= λ (before, later). ok (before, handed ++ later)

  -- The fragments of a text in parts, the last of which is marked, and the text
  unfoldable pub fragments : List Bytes → Bytes → List Bytes
  fragments [] last_part = fragment 1 last_part ∷ []
  fragments (part ∷ parts) last_part = fragment 0 part ∷ fragments parts last_part

  unfoldable pub joined : List Bytes → Bytes → Bytes
  joined [] last_part = last_part
  joined (part ∷ parts) last_part = part ++ joined parts last_part
