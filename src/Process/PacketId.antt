-- ===== src/Process/PacketId.antt =====
-- `GeneralPacketID` of utils/utils.go and `GeneralUniquePacketId` of process/client_process.go.
pub mod Freshness
mod Tests
use mqtt_server_go.Prelude.{
  ℕ, zero, suc, ◌+◌, ◌%◌, ◌^◌, bit_and, Map, lookup, nat_eq, none, some, Outcome, ok, stuck,
}

-- `len(asciiCode)`, the bound that is given to `rand.Intn`.
abbrev pub ascii_code_length : ℕ
ascii_code_length = 62

-- `uint16(generalRandNum() & 0x0000ffff)`, for a number that was drawn.
unfoldable pub general_packet_id : ℕ → ℕ
general_packet_id n = bit_and n 0xffff % 2 ^ 16

-- `rand` is `rand.Intn(62)`: its value at each call. The loop draws until an id is free in
-- `PubStatus`; the pair is the id and the number of draws so far. Each round takes fuel.
module _ (rand : ℕ → ℕ) where
  unfoldable pub general_unique_packet_id : ℕ → Map ℕ ℕ → ℕ → Outcome (ℕ × ℕ)
  general_unique_packet_id zero status drawn = stuck
  general_unique_packet_id (suc fuel) status drawn =
      let id = general_packet_id (rand drawn) in
      elim (lookup id status) [
        | none ↦ ok (id, drawn + 1)
        | some _ ↦ general_unique_packet_id fuel status (drawn + 1)
      ]
