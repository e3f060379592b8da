-- ===== src/Cluster/Cycle/Informs.antt =====
-- A client's information for another node: the port is looked for in the part before the colon.
use mqtt_server_go.Prelude.{
  ℕ, ◌+◌, ◌≡◌, refl, arith, inl, inr, Option-cases, Outcome, ok, panic, stuck, ◌≢◌, sym,
  slice-ne-stuck, ◌>>=◌, Bytes, length, slice, length-slice, lt→leb,
}
use mqtt_server_go.Strconv.{index_of}
use mqtt_server_go.ProtocolStack.Publish.{MqttPacketPublishData}
use mqtt_server_go.Cluster.Message.{ClusterClientInfo, client_info, cluster_client_info_msg}
use mqtt_server_go.Cluster.Cycle.{Cycle, send_info, on_client_info, process_cycle_msg}

-- A slice from behind its end
slice_behind : (xs : Bytes) → slice xs (length xs + 1) (length xs) ≡ panic
unfolding slice
slice_behind xs = rw (lt→leb (length xs + 1) (length xs) (omega arith)) refl

-- The text from behind the end of a prefix of that length
behind_prefix :
    {A : Type 0} (o : Outcome Bytes) (index : ℕ) (k : Bytes → Bytes → Outcome A)
    → o ≢ stuck
    → ((ip : Bytes) → o ≡ ok ip → length ip ≡ index)
    → (o >>= λ ip. slice ip (index + 1) (length ip) >>= λ port. k ip port) ≡ panic
behind_prefix (ok ip) index k h n = rw ((sym (n ip refl)), slice_behind ip) refl
behind_prefix panic index k h n = refl
behind_prefix stuck index k h n = absurd (h refl)

module _ (marshal_publish : MqttPacketPublishData → Bytes)
    (marshal_info : ClusterClientInfo → Bytes) where
  -- A client's information for another node makes the routine of the nodes panic, whatever the address,
  -- the information and the nodes are: this ends the process with all its connections.
  pub informs_panic :
      (to : Bytes) (info : ClusterClientInfo) (c : Cycle)
      → process_cycle_msg marshal_publish marshal_info
          (record {
            msg_type = cluster_client_info_msg;
            msg_from = to;
            msg_body = client_info info;
          })
          c
        ≡ panic
  unfolding process_cycle_msg on_client_info send_info
  informs_panic to info c = elim (Option-cases (index_of b':' to)) [
    | inl absent ↦ rw absent refl
    | inr (index, e) ↦ rw e (
        behind_prefix (slice to 0 index) index _ (slice-ne-stuck to 0 index)
          (λ ip f. omega (arith, length-slice to 0 index f)))
  ]
