-- ===== src/Process/PacketId/Freshness.antt =====
-- The packet id that the broker gives a message: free when it is found, found when one is free, and
-- never found when none is.
use mqtt_server_go.Prelude.{
  ℕ, zero, suc, ◌+◌, ◌<◌, ◌≡◌, ◌≢◌, refl, inl, inr, true, arith, Map, lookup, nat_eq, Option-cases,
  none, ok, stuck, all_below, all_below_sound, ◌==◌, ==_iff,
}
use mqtt_server_go.Process.PacketId.{general_packet_id, general_unique_packet_id, ascii_code_length}

id_table : all_below 62 (λ n. general_packet_id n == n) ≡ true
unfolding all_below general_packet_id
id_table = refl

general_packet_id_lem : (n : ℕ) → n < ascii_code_length → general_packet_id n ≡ n
general_packet_id_lem n h = (==_iff _ _).0 (all_below_sound 62 _ n id_table h)

pub general_packet_id-lt : (n : ℕ) → general_packet_id n < 65536
unfolding general_packet_id
general_packet_id-lt n = omega arith

module _ (rand : ℕ → ℕ) where
  -- When the search for a packet id returns, the id is not in use, fits a word, and took a draw at
  -- least.
  pub unique_packet_id-fresh :
      (fuel : ℕ) (status : Map ℕ ℕ) (drawn id drawn' : ℕ)
      → general_unique_packet_id rand fuel status drawn ≡ ok (id, drawn')
      → (lookup id status ≡ none) × (id < 65536) × (drawn < drawn')
  unfolding general_unique_packet_id
  unique_packet_id-fresh zero status drawn id drawn' e = cc
  unique_packet_id-fresh (suc fuel) status drawn id drawn' e = ground (
    arith,
    general_packet_id-lt (rand drawn),
    unique_packet_id-fresh fuel status (drawn + 1) id drawn',
  )

  -- When the draw that comes after `skip` others gives a free id, the search returns within skip + 1
  -- draws.
  pub unique_packet_id-total :
      (skip fuel : ℕ) (status : Map ℕ ℕ) (drawn : ℕ)
      → lookup (general_packet_id (rand (drawn + skip))) status ≡ none
      → skip < fuel
      → (r : ℕ × ℕ) × (general_unique_packet_id rand fuel status drawn ≡ ok r)
  unfolding general_unique_packet_id
  unique_packet_id-total skip zero status drawn free h = absurd (omega arith)
  unique_packet_id-total zero (suc fuel) status drawn free h =
      let here : drawn + 0 ≡ drawn = omega arith in
      ((general_packet_id (rand drawn), drawn + 1), rw (rw here at free, general_unique_packet_id))
  unique_packet_id-total (suc skip) (suc fuel) status drawn free h =
      elim (Option-cases (lookup (general_packet_id (rand drawn)) status)) [
        | inl e ↦ ((general_packet_id (rand drawn), drawn + 1), rw (e, general_unique_packet_id))
        | inr (v, e) ↦
            let there : drawn + suc skip ≡ drawn + 1 + skip = omega arith in
            rw (e, general_unique_packet_id)
              (unique_packet_id-total skip fuel status (drawn + 1) (rw there at free) (omega arith))
      ]

  -- `rand.Intn(62)` has 62 values: with all of them in use as packet ids, the search does not return,
  -- however many draws it has.
  pub unique_packet_id-exhausted :
      ((i : ℕ) → rand i < ascii_code_length)
      → (fuel : ℕ) (status : Map ℕ ℕ) (drawn : ℕ)
      → ((id : ℕ) → id < ascii_code_length → lookup id status ≢ none)
      → general_unique_packet_id rand fuel status drawn ≡ stuck
  unfolding general_unique_packet_id
  unique_packet_id-exhausted bound zero status drawn used = refl
  unique_packet_id-exhausted bound (suc fuel) status drawn used =
      elim (Option-cases (lookup (general_packet_id (rand drawn)) status)) [
        | inl e ↦ absurd (
            used (rand drawn) (bound drawn)
              (rw (general_packet_id_lem (rand drawn) (bound drawn)) at e))
        | inr (v, e) ↦
            rw (e, general_unique_packet_id)
              (unique_packet_id-exhausted bound fuel status (drawn + 1) used)
      ]
