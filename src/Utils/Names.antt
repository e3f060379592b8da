-- ===== src/Utils/Names.antt =====
-- `GeneralRoutinId` and `RemoveRoutinId` of utils/utils.go.
use mqtt_server_go.Prelude.{
  ℕ, zero, suc, ◌+◌, ◌≡◌, refl, ap, sym, subst, ◌∙◌, Bool-cases, Option-cases, inl, inr, arith, [],
  ◌∷◌, ◌++◌, Bytes, codes, length, length-append, Map, lookup, insert, delete, lookup-insert,
  lookup-delete, beq_self, bytes_beq, bytes_beq_iff, bytes_eq, Option, none, some, Outcome, ok,
  stuck, ◌>>=◌, >>=-inv, index_at,
}

abbrev pub ascii_code : Bytes
ascii_code = codes "0123456789abcdefghijklmnopqrstuvwxyzABCDEFGHIJKLMNOPQRSTUVWXYZ"

-- `rand` is `rand.Intn(62)`: its value at each call.
module _ (rand : ℕ → ℕ) where
  -- The inner loop: `count` more characters behind `id`
  unfoldable pub fill_id : ℕ → ℕ → Bytes → Outcome Bytes
  fill_id zero drawn id = ok id
  fill_id (suc count) drawn id = do
    c ← index_at ascii_code (rand drawn)
    fill_id count (drawn + 1) (id ++ c ∷ [])

  -- The name, `RoutinIdMap`, and the number of draws so far. Each round takes fuel.
  unfoldable pub general_routin_id : ℕ → ℕ → Map Bytes ℕ → ℕ → Outcome (Bytes × Map Bytes ℕ × ℕ)
  general_routin_id zero len ids drawn = stuck
  general_routin_id (suc fuel) len ids drawn = do
    tmp ← fill_id len drawn []
    let again = general_routin_id fuel len ids (drawn + len)
    taken tmp (lookup tmp ids) again
    where
      taken :
          Bytes → Option ℕ → Outcome (Bytes × Map Bytes ℕ × ℕ) → Outcome (Bytes × Map Bytes ℕ × ℕ)
      taken tmp none again = ok (tmp, insert tmp 0 ids, drawn + len)
      taken tmp (some _) again = again

unfoldable pub remove_routin_id : Bytes → Map Bytes ℕ → Map Bytes ℕ
remove_routin_id id ids = removed (lookup id ids)
  where
    removed : Option ℕ → Map Bytes ℕ
    removed none = ids
    removed (some _) = delete id ids

module _ (rand : ℕ → ℕ) where
  length-fill_id :
      (count drawn : ℕ) (id r : Bytes)
      → fill_id rand count drawn id ≡ ok r
      → length r ≡ length id + count
  unfolding fill_id
  length-fill_id zero drawn id r e = let same : id ≡ r = cc in omega (arith, ap length same)
  length-fill_id (suc count) drawn id r e =
      let (c, here, there) = >>=-inv (index_at ascii_code (rand drawn)) _ e in
      omega
        (arith, length-fill_id count (drawn + 1) (id ++ c ∷ []) r there, length-append id (c ∷ []))

  remove-insert :
      (id j : Bytes) (ids : Map Bytes ℕ)
      → lookup id ids ≡ none
      → lookup j (remove_routin_id id (insert id 0 ids)) ≡ lookup j ids
  unfolding remove_routin_id
  remove-insert id j ids free =
      rw
        (
          lookup-insert id id 0 ids,
          beq_self id,
          lookup-delete id j (insert id 0 ids),
          lookup-insert id j 0 ids,
        )
        (elim (Bool-cases (bytes_beq id j)) [
          | inl e ↦
              let same : id ≡ j = (bytes_beq_iff id j).0 e in
              rw e (sym (subst (λ (k : Bytes). lookup k ids ≡ none) same free))
          | inr e ↦ rw e refl
        ])

  -- A name that is found has the length that was asked for and was not in use, and with its removal the
  -- names are as before.
  pub general_routin_id-fresh :
      (fuel len drawn drawn' : ℕ) (ids ids' : Map Bytes ℕ) (id : Bytes)
      → general_routin_id rand fuel len ids drawn ≡ ok (id, ids', drawn')
      → (length id ≡ len)
        × (lookup id ids ≡ none)
        × ((j : Bytes) → lookup j (remove_routin_id id ids') ≡ lookup j ids)
  unfolding general_routin_id
  general_routin_id-fresh zero len drawn drawn' ids ids' id e = cc
  general_routin_id-fresh (suc fuel) len drawn drawn' ids ids' id e =
      let (tmp, filled, there) = >>=-inv (fill_id rand len drawn []) _ e in
      elim (Option-cases (lookup tmp ids)) [
        | inl free ↦
            let done : ◌≡◌ {A = Outcome (Bytes × Map Bytes ℕ × ℕ)}
                (ok (tmp, insert tmp 0 ids, drawn + len)) (ok (id, ids', drawn')) =
              rw free at there in
            let name : tmp ≡ id = cc in
            let map' : insert tmp 0 ids ≡ ids' = cc in
            rw (← name, ← map')
              (
                length-fill_id len drawn [] tmp filled ∙ omega arith,
                free,
                λ j. remove-insert tmp j ids free,
              )
        | inr (v, used) ↦
            general_routin_id-fresh fuel len (drawn + len) drawn' ids ids' id (rw used at there)
      ]
