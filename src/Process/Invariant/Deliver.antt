-- ===== src/Process/Invariant/Deliver.antt =====
-- The three loops over the subscribers keep the invariant.
use mqtt_server_go.Prelude.{
  ℕ, ◌≤◌, refl, arith, [], ◌∷◌, ◌++◌, Bytes, insert, nat_eq, ◌==◌, ltb, leb,
}
use mqtt_server_go.ProtocolStack.PacketType.{puback, pubrec}
use mqtt_server_go.ProtocolStack.Publish.{MqttPacketPublishData}
use mqtt_server_go.Process.Server.{MqttClientInfo, pure}
use mqtt_server_go.Process.Deliver.{
  deliver_publish, deliver_released, deliver_cluster, publish_to_client, release_to_client,
  cluster_to_client,
}
use mqtt_server_go.Process.Heaps.{
  Pred, Triple, Keeps, Triple-bind, Triple-load, Triple-if, Triple-pure, Triple-fact, Keeps-pure,
  Keeps-lift, Keeps-emit, Keeps-load, Keeps-fresh_id, Triple-for_topics, Keeps-for_topics,
}
use mqtt_server_go.Process.Invariant.{IsClient, Valid, store-Valid, pure-Valid}
use mqtt_server_go.Process.Invariant.Updates.{insert-Statuses, insert-Kept, append-All}

-- A packet id gets a status.
pub with_status :
    (c : MqttClientInfo) (id st : ℕ)
    → 4 ≤ st
    → st ≤ 7
    → IsClient c
    → IsClient (record c { pub_status = insert id st c.pub_status })
with_status c id st p q v = record {
  topics = v.topics;
  login = v.login;
  statuses = insert-Statuses id st c.pub_status p q v.statuses;
  cached = v.cached;
  waiting = v.waiting;
}

-- A message is kept, and its packet id gets a status.
pub with_kept :
    (c : MqttClientInfo) (id st : ℕ) (p : MqttPacketPublishData)
    → 1 ≤ p.qos
    → 4 ≤ st
    → st ≤ 7
    → IsClient c
    → IsClient
        (record c { cache_msg = insert id p c.cache_msg; pub_status = insert id st c.pub_status })
with_kept c id st p h l u v = record {
  topics = v.topics;
  login = v.login;
  statuses = insert-Statuses id st c.pub_status l u v.statuses;
  cached = insert-Kept id p c.cache_msg h v.cached;
  waiting = v.waiting;
}

with_waiting :
    (c : MqttClientInfo) (p : MqttPacketPublishData)
    → 1 ≤ p.qos
    → IsClient c
    → IsClient (record c { offline_msg = c.offline_msg ++ p ∷ [] })
with_waiting c p h v = record {
  topics = v.topics;
  login = v.login;
  statuses = v.statuses;
  cached = v.cached;
  waiting = append-All c.offline_msg p v.waiting h;
}

module _ (rand : ℕ → ℕ) (fuel : ℕ) where
  deliver_publish-Valid :
      (a : ℕ) (st : MqttPacketPublishData × Bytes) → Keeps Valid (deliver_publish rand fuel a st)
  unfolding deliver_publish
  deliver_publish-Valid a (p, buf) = Triple-bind _ _ (Triple-load a) λ c.
      Triple-bind _ _ (Keeps-fresh_id rand fuel c.pub_status) λ id.
        Triple-if (c.login_success == 1) _ _
          (λ _.
            Triple-if (p.qos == 1) _ _
              (λ _. Triple-bind _ _ (Keeps-lift _) λ r.
                Triple-bind _ _
                  (store-Valid a c _ refl (with_status c id puback (omega arith) (omega arith)))
                  λ _. Triple-bind _ _ (Keeps-emit _) λ _. Keeps-pure _)
              (λ _.
                Triple-if (p.qos == 2) _ _ (λ _. pure-Valid a c _)
                  (λ _.
                    Triple-if (p.qos == 0) _ _
                      (λ _.
                        Triple-bind _ _ (Keeps-lift _)
                          λ r. Triple-bind _ _ (Keeps-emit _) λ _. pure-Valid a c _)
                      (λ _. pure-Valid a c _))))
          (λ _.
            Triple-if (ltb 0 p.qos) _ _
              (λ _.
                Triple-if (p.qos == 1) _ _
                  (λ one.
                    Triple-bind _ _ (store-Valid a c _ refl (with_waiting c _ (ground arith)))
                      λ _. Keeps-pure _)
                  (λ _. pure-Valid a c _))
              (λ _. pure-Valid a c _))

  pub publish_to_client-Valid :
      (a : ℕ) (st : MqttPacketPublishData × Bytes) → Keeps Valid (publish_to_client rand fuel a st)
  unfolding publish_to_client
  publish_to_client-Valid a (p, buf) =
      Triple-bind _ _ (Keeps-load a)
        λ c. Keeps-for_topics _ p.topic c.sub_info (p, buf) (deliver_publish-Valid a)

-- The message that a loop hands on has a quality above 0.
abbrev pub Handing : MqttPacketPublishData → Pred
Handing p h m = Valid h m × (1 ≤ p.qos)

handed : (p : MqttPacketPublishData) → 1 ≤ p.qos → Triple Valid (pure p) Handing
handed p h = Triple-pure p (λ heap m v. (v, h))

module _ (rand : ℕ → ℕ) (fuel : ℕ) where
  deliver_released-Handing :
      (a : ℕ) (p : MqttPacketPublishData)
      → Triple (Handing p) (deliver_released rand fuel a p) Handing
  unfolding deliver_released
  deliver_released-Handing a p = Triple-fact λ h. Triple-bind _ _ (Triple-load a) λ c.
      Triple-bind _ _ (Keeps-fresh_id rand fuel c.pub_status) λ id.
        Triple-if (c.login_success == 1) _ _
          (λ _. Triple-bind _ _ (Keeps-lift _) λ r.
            Triple-bind _ _
              (store-Valid a c _ refl (with_kept c id pubrec _ h (omega arith) (omega arith)))
              λ _. Triple-bind _ _ (Keeps-emit _) λ _. handed _ h)
          (λ _. Triple-bind _ _ (store-Valid a c _ refl (with_waiting c _ h)) λ _. handed _ h)

  pub release_to_client-Handing :
      (a : ℕ) (p : MqttPacketPublishData)
      → Triple (Handing p) (release_to_client rand fuel a p) Handing
  unfolding release_to_client
  release_to_client-Handing a p =
      Triple-bind _ _ (Keeps-load a)
        λ c. Triple-for_topics Handing _ p.topic c.sub_info p (deliver_released-Handing a)

  deliver_cluster-Valid :
      (a : ℕ) (p : MqttPacketPublishData) → Keeps Valid (deliver_cluster rand fuel a p)
  unfolding deliver_cluster
  deliver_cluster-Valid a p = Triple-bind _ _ (Triple-load a) λ c.
      Triple-bind _ _ (Keeps-fresh_id rand fuel c.pub_status) λ id.
        Triple-if (c.login_success == 1) _ _
          (λ _.
            Triple-if (p.qos == 0) _ _
              (λ _.
                Triple-bind _ _ (Keeps-lift _)
                  λ r. Triple-bind _ _ (Keeps-emit _) λ _. pure-Valid a c _)
              (λ _.
                Triple-if (p.qos == 1) _ _
                  (λ _. Triple-bind _ _ (Keeps-lift _) λ r.
                    Triple-bind _ _
                      (store-Valid a c _ refl (with_status c id puback (omega arith) (omega arith)))
                      λ _. Triple-bind _ _ (Keeps-emit _) λ _. Keeps-pure _)
                  (λ _.
                    Triple-if (p.qos == 2) _ _
                      (λ two. Triple-bind _ _ (Keeps-lift _) λ r.
                        Triple-bind _ _
                          (store-Valid a c _ refl
                            (with_kept c id pubrec _ (ground arith) (omega arith) (omega arith)))
                          λ _. Triple-bind _ _ (Keeps-emit _) λ _. Keeps-pure _)
                      (λ _. pure-Valid a c _))))
          (λ _.
            Triple-if (leb 1 p.qos) _ _
              (λ above.
                Triple-bind _ _ (store-Valid a c _ refl (with_waiting c _ (ground arith)))
                  λ _. Keeps-pure _)
              (λ _. pure-Valid a c _))

  pub cluster_to_client-Valid :
      (a : ℕ) (p : MqttPacketPublishData) → Keeps Valid (cluster_to_client rand fuel a p)
  unfolding cluster_to_client
  cluster_to_client-Valid a p =
      Triple-bind _ _ (Keeps-load a)
        λ c. Keeps-for_topics _ p.topic c.sub_info p (deliver_cluster-Valid a)
