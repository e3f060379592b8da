-- ===== src/Process/Deliver/Ready.antt =====
-- What a visit of the clients needs: records that are ready to get a message, with an id for it.
use mqtt_server_go.Prelude.{
  ℕ, ◌+◌, ◌<◌, ◌≡◌, refl, lookup, nat_eq, none, some, List, All, get_elem?, ok,
}
use mqtt_server_go.ProtocolStack.Publish.{MqttPacketPublishData}
use mqtt_server_go.ProtocolStack.Publish.Layout.{Fits, remaining}
use mqtt_server_go.Process.Server.{MqttClientInfo, Server}
use mqtt_server_go.Process.PacketId.{general_packet_id}
use mqtt_server_go.Process.PacketId.Freshness.{unique_packet_id-total, unique_packet_id-fresh}
use mqtt_server_go.Process.Deliver.{fresh_id}
use mqtt_server_go.Process.Deliver.Topics.{Distinct}

-- The record has distinct topics, and of any `fuel` draws in a row one gives it a free packet id.
pub record IsReady (rand : ℕ → ℕ) (fuel : ℕ) (c : MqttClientInfo) : Type 0 where
  pub distinct : Distinct c.sub_info
  pub draws :
      (drawn : ℕ)
      → (skip : ℕ) × (skip < fuel)
        × (lookup (general_packet_id (rand (drawn + skip))) c.pub_status ≡ none)

module _ (rand : ℕ → ℕ) (fuel : ℕ) where
  pub fresh_id_lem :
      (c : MqttClientInfo) (s : Server)
      → IsReady rand fuel c
      → (id : ℕ) × (drawn : ℕ) × (lookup id c.pub_status ≡ none)
        × (id < 65536)
        × (fresh_id rand fuel c.pub_status s ≡ ok (id, record s { drawn = drawn }))
  unfolding fresh_id
  fresh_id_lem c s ready =
      let (skip, lt, free) = ready.draws s.drawn in
      let ((id, drawn), run) = unique_packet_id-total rand skip fuel c.pub_status s.drawn free lt in
      let (unused, word, more) =
        unique_packet_id-fresh rand fuel c.pub_status s.drawn id drawn run in
      (id, drawn, unused, word, rw run refl)

-- The clients of a visit, each with a record that is ready.
abbrev pub Visitable : (ℕ → ℕ) → ℕ → List MqttClientInfo → List ℕ → Type 0
Visitable rand fuel heap =
    All (λ a. (c : MqttClientInfo) × (get_elem? heap a ≡ some c) × IsReady rand fuel c)

abbrev pub with_id : MqttPacketPublishData → ℕ → MqttPacketPublishData
with_id p id = record p { packet_id = id }

pub with_id-Fits : (p : MqttPacketPublishData) (id : ℕ) → id < 65536 → Fits p → Fits (with_id p id)
unfolding remaining
with_id-Fits p id h f = record {
  dup_fits = f.dup_fits;
  qos_fits = f.qos_fits;
  retained_fits = f.retained_fits;
  packet_id_fits = h;
  remaining_fits = f.remaining_fits;
}
