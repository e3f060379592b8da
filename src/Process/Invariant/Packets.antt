-- ===== src/Process/Invariant/Packets.antt =====
-- The dispatcher's cases for PUBLISH and its acknowledgements keep the invariant.
use mqtt_server_go.Prelude.{
  ℕ, ◌≤◌, ◌≡◌, refl, arith, List, [], Bytes, insert, delete, nat_eq, Option, none, some, ◌==◌,
}
use mqtt_server_go.ProtocolStack.PacketType.{puback, pubrec, pubrel, pubcomp, none_type}
use mqtt_server_go.ProtocolStack.Publish.{MqttPacketPublishData}
use mqtt_server_go.Cluster.Message.{
  Body, client, text, subscribe_data, unsubscribe_data, publish_data, client_info, udp_addr,
}
use mqtt_server_go.Process.Server.{MqttClientInfo, M, ◌>>=◌, find_client, if_found}
use mqtt_server_go.Process.Handlers.{
  as_publish, status_is, puback_of, client_puback, pubrec_of, client_pubrec, pubcomp_of,
  client_pubcomp, keep_publish, publish_of, client_publish, release_kept, pubrel_of, client_pubrel,
}
use mqtt_server_go.Process.Heaps.{
  Pred, Keeps, Triple-bind, Triple-load, Triple-if, Triple-pre, Triple-fact, Keeps-pure, Keeps-lift,
  Keeps-emit, Keeps-find_client, Keeps-if_found, Keeps-panic, Keeps-for_clients, Triple-for_clients,
}
use mqtt_server_go.Process.Invariant.{IsClient, Valid, store-Valid, pure-Valid, known}
use mqtt_server_go.Process.Invariant.Updates.{delete-Statuses, delete-insert-Statuses, delete-Kept}
use mqtt_server_go.Process.Invariant.Deliver.{
  with_status, with_kept, publish_to_client-Valid, Handing, release_to_client-Handing,
}

pub Keeps-as_publish : {P : Pred} (body : Body) → Keeps P (as_publish body)
Keeps-as_publish (publish_data p) = Keeps-pure p
Keeps-as_publish (client _) = Keeps-panic
Keeps-as_publish (text _) = Keeps-panic
Keeps-as_publish (subscribe_data _) = Keeps-panic
Keeps-as_publish (unsubscribe_data _) = Keeps-panic
Keeps-as_publish (client_info _) = Keeps-panic
Keeps-as_publish (udp_addr _) = Keeps-panic

-- A handler for a message of a client: it looks the client up, and goes on with the record.
on_client :
    (from : Bytes) (body : Body) (missing : M (Unit {0}))
    (found : ℕ → MqttPacketPublishData → M (Unit {0}))
    → Keeps Valid missing
    → ((a : ℕ) (p : MqttPacketPublishData) → Keeps Valid (found a p))
    → Keeps Valid
        (do p ← as_publish body; self ← find_client from; if_found self missing (λ a. found a p))
on_client from body missing found k f =
    Triple-bind _ _ (Keeps-as_publish body)
      λ p. Triple-bind _ _ (Keeps-find_client from) λ self. Keeps-if_found self _ _ k (λ a. f a p)

with_free :
    (c : MqttClientInfo) (id : ℕ)
    → IsClient c
    → IsClient (record c { pub_status = delete id c.pub_status })
with_free c id v = record {
  topics = v.topics;
  login = v.login;
  statuses = delete-Statuses id c.pub_status v.statuses;
  cached = v.cached;
  waiting = v.waiting;
}

puback_of-Valid : (a : ℕ) (p : MqttPacketPublishData) → Keeps Valid (puback_of a p)
unfolding puback_of
puback_of-Valid a p = Triple-bind _ _ (Triple-load a) λ c.
    Triple-if (status_is puback p.packet_id c) _ _
      (λ _. store-Valid a c _ refl (with_free c p.packet_id)) (λ _. pure-Valid a c tt)

pub client_puback-Valid : (from : Bytes) (body : Body) → Keeps Valid (client_puback from body)
unfolding client_puback
client_puback-Valid from body = on_client from body _ _ (Keeps-pure tt) puback_of-Valid

pubrec_of-Valid : (a : ℕ) (p : MqttPacketPublishData) → Keeps Valid (pubrec_of a p)
unfolding pubrec_of
pubrec_of-Valid a p = Triple-bind _ _ (Triple-load a) λ c.
    Triple-if (status_is pubrec p.packet_id c) _ _
      (λ _. Triple-bind _ _ (Keeps-lift _) λ r.
        Triple-bind _ _
          (store-Valid a c _ refl (with_status c p.packet_id pubcomp (omega arith) (omega arith)))
          λ _. Keeps-emit _)
      (λ _. pure-Valid a c tt)

pub client_pubrec-Valid : (from : Bytes) (body : Body) → Keeps Valid (client_pubrec from body)
unfolding client_pubrec
client_pubrec-Valid from body = on_client from body _ _ (Keeps-pure tt) pubrec_of-Valid

with_done :
    (c : MqttClientInfo) (id : ℕ)
    → IsClient c
    → IsClient (record c {
      pub_status = delete id (insert id none_type c.pub_status);
      cache_msg = delete id c.cache_msg;
    })
with_done c id v = record {
  topics = v.topics;
  login = v.login;
  statuses = delete-insert-Statuses id none_type c.pub_status v.statuses;
  cached = delete-Kept id c.cache_msg v.cached;
  waiting = v.waiting;
}

pubcomp_of-Valid : (a : ℕ) (p : MqttPacketPublishData) → Keeps Valid (pubcomp_of a p)
unfolding pubcomp_of
pubcomp_of-Valid a p = Triple-bind _ _ (Triple-load a) λ c.
    Triple-if (status_is pubcomp p.packet_id c) _ _
      (λ _. store-Valid a c _ refl (with_done c p.packet_id)) (λ _. pure-Valid a c tt)

pub client_pubcomp-Valid : (from : Bytes) (body : Body) → Keeps Valid (client_pubcomp from body)
unfolding client_pubcomp
client_pubcomp-Valid from body = on_client from body _ _ Keeps-panic pubcomp_of-Valid

module _ (rand : ℕ → ℕ) (fuel : ℕ) where
  keep_publish-Valid :
      (a : ℕ) (p : MqttPacketPublishData) → Keeps Valid (keep_publish rand fuel a p)
  unfolding keep_publish
  keep_publish-Valid a p =
      Triple-if (p.qos == 2) _ _
        (λ two. Triple-bind _ _ (Triple-load a) λ c.
          store-Valid a c _ refl
            (with_kept c p.packet_id pubrel p (ground arith) (omega arith) (omega arith)))
        (λ _. Keeps-pure tt)

  publish_of-Valid :
      (visit : List ℕ) (a : ℕ) (p : MqttPacketPublishData)
      → Keeps Valid (publish_of rand fuel visit a p)
  unfolding publish_of
  publish_of-Valid visit a p = Triple-bind _ _ (keep_publish-Valid a p) λ _.
      Triple-bind _ _ (Keeps-for_clients _ visit (p, []) (publish_to_client-Valid rand fuel))
        λ _. Keeps-pure tt

  pub client_publish-Valid :
      (visit : List ℕ) (from : Bytes) (body : Body)
      → Keeps Valid (client_publish rand fuel visit from body)
  unfolding client_publish
  client_publish-Valid visit from body =
      on_client from body _ _ (Keeps-pure tt) (publish_of-Valid visit)

  release_kept-Valid :
      (visit : List ℕ) (kept : Option MqttPacketPublishData)
      → ((p : MqttPacketPublishData) → kept ≡ some p → 1 ≤ p.qos)
      → Keeps Valid (release_kept rand fuel visit kept)
  unfolding release_kept
  release_kept-Valid visit none k = Keeps-pure tt
  release_kept-Valid visit (some kept) k =
      Triple-bind _ _
        (Triple-pre (λ h m v. (v, k kept refl))
          (Triple-for_clients Handing _ visit kept (release_to_client-Handing rand fuel)))
        λ kept'. Triple-fact λ _. Keeps-emit _

  pubrel_of-Valid :
      (visit : List ℕ) (a : ℕ) (p : MqttPacketPublishData)
      → Keeps Valid (pubrel_of rand fuel visit a p)
  unfolding pubrel_of
  pubrel_of-Valid visit a p = Triple-bind _ _ (Triple-load a) λ c. known λ old.
      Triple-if (status_is pubrel p.packet_id c) _ _
        (λ _. Triple-bind _ _ (Keeps-lift _) λ r.
          Triple-bind _ _ (store-Valid a c _ refl (with_free c p.packet_id)) λ _.
            Triple-bind _ _ (Keeps-emit _)
              λ _. release_kept-Valid visit _ (λ kept e. old.cached p.packet_id kept e))
        (λ _. pure-Valid a c tt)

  pub client_pubrel-Valid :
      (visit : List ℕ) (from : Bytes) (body : Body)
      → Keeps Valid (client_pubrel rand fuel visit from body)
  unfolding client_pubrel
  client_pubrel-Valid visit from body =
      on_client from body _ _ (Keeps-pure tt) (pubrel_of-Valid visit)
