-- ===== src/Cluster/Cycle/Runs.antt =====
-- The nodes stay the same, and their time stays in its bounds, whatever the routine takes.
use mqtt_server_go.Prelude.{
  ℕ, ◌+◌, ◌%◌, ◌^◌, ◌≡◌, refl, ◌∙◌, subst, inl, inr, Bool-cases, List, [], ◌∷◌, ◌++◌, All, map,
  Bytes, Option, none, some, Outcome, ok, panic, stuck, >>=-inv, ◌>>=◌, or_panic, slice, length,
  ◌==◌, if◌then◌else◌,
}
use mqtt_server_go.Strconv.{index_of, atoi}
use mqtt_server_go.ProtocolStack.Publish.{MqttPacketPublishData}
use mqtt_server_go.Cluster.Message.{
  Body, client, text, subscribe_data, unsubscribe_data, publish_data, client_info, udp_addr,
  ClusterClientInfo, RoutingCommunicateMsg, cluster_heart_msg, cluster_public_msg,
  cluster_login_msg, cluster_client_info_msg,
}
use mqtt_server_go.Cluster.Node.{ClusterNodeInfo}
use mqtt_server_go.Cluster.Cycle.{
  Cycle, Sent, inform, send_info, on_heart, on_public, on_login, on_client_info, process_cycle_msg,
  cycle_case, start_cluster_server_cycly,
}
use mqtt_server_go.Cluster.Cycle.Nodes.{
  InTime, address, Follows-InTime, Follows, Follows-refl, Informs, broadcast_to-Follows,
  tick_100ms-Follows, inform-Follows, hear-Follows,
}

-- A routine that ends well
abbrev Ends : Cycle → Outcome Cycle → Type 0
Ends c (ok c') = Follows c.cluster_server_nodes c'.cluster_server_nodes
Ends c panic = Unit {0}
Ends c stuck = Unit {0}

Ends-bind :
    {A : Type 0} (c : Cycle) (o : Outcome A) (f : A → Outcome Cycle)
    → ((a : A) → Ends c (f a))
    → Ends c (o >>= f)
Ends-bind c (ok a) f k = k a
Ends-bind c panic f k = tt
Ends-bind c stuck f k = tt

-- The nodes that a client's information was for
informed_cycle :
    (c : Cycle) (o : Outcome (List ClusterNodeInfo × List Sent))
    → Informs c.cluster_server_nodes o
    → Ends c (o >>= λ r. ok (record c { cluster_server_nodes = r.0; sent = c.sent ++ r.1 }))
informed_cycle c (ok (ns', sent)) f = f
informed_cycle c panic f = tt
informed_cycle c stuck f = tt

module _ (marshal_publish : MqttPacketPublishData → Bytes)
    (marshal_info : ClusterClientInfo → Bytes) where
  send_info-Ends :
      (to : Bytes) (info : ClusterClientInfo) (c : Cycle)
      → Ends c (send_info marshal_publish marshal_info to info c)
  unfolding send_info
  send_info-Ends to info c = Ends-bind c (or_panic (index_of b':' to)) _ λ index.
      Ends-bind c (slice to 0 index) _ λ ip.
        Ends-bind c (slice ip (index + 1) (length ip)) _ λ port.
          informed_cycle c
            (inform ip ((atoi port).0 % 2 ^ 16) (marshal_info info) c.cluster_server_nodes)
            (inform-Follows ip _ _ c.cluster_server_nodes)

  on_heart-Ends : (body : Body) (c : Cycle) → Ends c (on_heart marshal_publish marshal_info body c)
  unfolding on_heart
  on_heart-Ends (udp_addr addr) c = hear-Follows addr.ip _ c.cluster_server_nodes
  on_heart-Ends (client _) c = Follows-refl c.cluster_server_nodes
  on_heart-Ends (text _) c = Follows-refl c.cluster_server_nodes
  on_heart-Ends (subscribe_data _) c = Follows-refl c.cluster_server_nodes
  on_heart-Ends (unsubscribe_data _) c = Follows-refl c.cluster_server_nodes
  on_heart-Ends (publish_data _) c = Follows-refl c.cluster_server_nodes
  on_heart-Ends (client_info _) c = Follows-refl c.cluster_server_nodes

  on_public-Ends :
      (body : Body) (c : Cycle) → Ends c (on_public marshal_publish marshal_info body c)
  unfolding on_public
  on_public-Ends (publish_data p) c = broadcast_to-Follows _ c
  on_public-Ends (client _) c = tt
  on_public-Ends (text _) c = tt
  on_public-Ends (subscribe_data _) c = tt
  on_public-Ends (unsubscribe_data _) c = tt
  on_public-Ends (client_info _) c = tt
  on_public-Ends (udp_addr _) c = tt

  on_login-Ends : (body : Body) (c : Cycle) → Ends c (on_login marshal_publish marshal_info body c)
  unfolding on_login
  on_login-Ends (text id) c = broadcast_to-Follows _ c
  on_login-Ends (client _) c = tt
  on_login-Ends (subscribe_data _) c = tt
  on_login-Ends (unsubscribe_data _) c = tt
  on_login-Ends (publish_data _) c = tt
  on_login-Ends (client_info _) c = tt
  on_login-Ends (udp_addr _) c = tt

  on_client_info-Ends :
      (to : Bytes) (body : Body) (c : Cycle)
      → Ends c (on_client_info marshal_publish marshal_info to body c)
  unfolding on_client_info
  on_client_info-Ends to (client_info info) c = send_info-Ends to info c
  on_client_info-Ends to (client _) c = tt
  on_client_info-Ends to (text _) c = tt
  on_client_info-Ends to (subscribe_data _) c = tt
  on_client_info-Ends to (unsubscribe_data _) c = tt
  on_client_info-Ends to (publish_data _) c = tt
  on_client_info-Ends to (udp_addr _) c = tt

  process_cycle_msg-Ends :
      (msg : RoutingCommunicateMsg) (c : Cycle)
      → Ends c (process_cycle_msg marshal_publish marshal_info msg c)
  unfolding process_cycle_msg
  process_cycle_msg-Ends msg c = on_type cluster_heart_msg _ _ (on_heart-Ends msg.msg_body c) (
      on_type cluster_public_msg _ _ (on_public-Ends msg.msg_body c) (
        on_type cluster_login_msg _ _ (on_login-Ends msg.msg_body c) (
          on_type cluster_client_info_msg _ _ (on_client_info-Ends msg.msg_from msg.msg_body c)
            (Follows-refl c.cluster_server_nodes))))
    where
      on_type :
          (n : ℕ) (o o' : Outcome Cycle)
          → Ends c o
          → Ends c o'
          → Ends c (if msg.msg_type == n then o else o')
      on_type n o o' h k = elim (Bool-cases (msg.msg_type == n)) [ inl e ↦ rw e h | inr e ↦ rw e k ]

  pub cycle_case-Ends :
      (e : Option RoutingCommunicateMsg) (c : Cycle)
      → Ends c (cycle_case marshal_publish marshal_info e c)
  unfolding cycle_case
  cycle_case-Ends none c = tick_100ms-Follows c
  cycle_case-Ends (some msg) c = process_cycle_msg-Ends msg c

  -- Whatever beats and messages the routine of the nodes takes, as long as it goes on: its nodes are the
  -- ones it started with, in their order, none of them is removed, and when each had at most 60 seconds
  -- left, each has at most 60 seconds left, so the int8 never overflows.
  pub cycly-InTime :
      (events : List (Option RoutingCommunicateMsg)) (c c' : Cycle)
      → start_cluster_server_cycly marshal_publish marshal_info events c ≡ ok c'
      → All InTime c.cluster_server_nodes
      → (map address c'.cluster_server_nodes ≡ map address c.cluster_server_nodes)
        × All InTime c'.cluster_server_nodes
  unfolding start_cluster_server_cycly
  cycly-InTime [] c c' e h =
      let same : c ≡ c' = cc in
      subst
        (λ (d : Cycle).
          (map address d.cluster_server_nodes ≡ map address c.cluster_server_nodes)
          × All InTime d.cluster_server_nodes)
        same (refl, h)
  cycly-InTime (event ∷ events) c c' e h =
      let (d, first, rest) = >>=-inv (cycle_case marshal_publish marshal_info event c) _ e in
      let follows : Follows c.cluster_server_nodes d.cluster_server_nodes =
        rw first at (cycle_case-Ends event c) in
      let (same, times) = Follows-InTime _ _ follows h in
      let (same', times') = cycly-InTime events d c' rest times in (same' ∙ same, times')
