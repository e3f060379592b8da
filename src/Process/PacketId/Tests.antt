-- ===== src/Process/PacketId/Tests.antt =====
-- The theorems on packet ids at concrete states.
use mqtt_server_go.Prelude.{
  ℕ, zero, suc, ◌≡◌, ◌≢◌, refl, arith, [], ◌∷◌, ◌<◌, ◌%◌, Map, lookup, nat_eq, bytes_eq, ok, stuck,
  none,
}
use mqtt_server_go.ProtocolStack.PacketType.{puback}
use mqtt_server_go.Process.PacketId.{ascii_code_length, general_packet_id, general_unique_packet_id}
use mqtt_server_go.Process.PacketId.Freshness.{unique_packet_id-fresh, unique_packet_id-exhausted}

-- The numbers that are drawn
abbrev rand : ℕ → ℕ
rand i = i % 62

-- The ids 0 and 1 are in use, and 2 is drawn third.
abbrev two_used : Map ℕ ℕ
two_used = (0, puback) ∷ (1, puback) ∷ []

third_draw : general_unique_packet_id rand 3 two_used 0 ≡ ok (2, 3)
unfolding general_unique_packet_id lookup general_packet_id
third_draw = refl

unique_packet_id-fresh_example : (lookup 2 two_used ≡ none) × (2 < 65536) × (0 < 3)
unique_packet_id-fresh_example = unique_packet_id-fresh rand 3 two_used 0 2 3 third_draw

-- Every id below `n` is in use.
all_used : ℕ → Map ℕ ℕ
all_used zero = []
all_used (suc n) = (n, puback) ∷ all_used n

all_used_lem : (n id : ℕ) → id < n → lookup id (all_used n) ≢ none
unfolding lookup all_used
all_used_lem zero id h = absurd (omega arith)
all_used_lem (suc n) id h = ground (arith, all_used_lem n id)

rand_bound : (i : ℕ) → rand i < ascii_code_length
rand_bound i = omega arith

unique_packet_id-exhausted_example : general_unique_packet_id rand 1000 (all_used 62) 0 ≡ stuck
unique_packet_id-exhausted_example =
    unique_packet_id-exhausted rand rand_bound 1000 (all_used 62) 0 (all_used_lem 62)
