-- ===== src/Process/Deliver/Topics.antt =====
-- A client's topics are the keys of a Go map, so the loop over them runs its body at most once.
use mqtt_server_go.Prelude.{
  ℕ, ◌≡◌, ◌≢◌, refl, inl, inr, false, Bool-cases, Bytes, Map, lookup, insert, delete, lookup-insert,
  lookup-delete, bytes_eq, bytes_beq, bytes_beq_iff, Option, none, some, [], ◌∷◌, Fresh, arith,
  Outcome, ok, panic, stuck, ◌>>=◌ as and_then,
}
use mqtt_server_go.Process.Server.{M, pure, Server}
use mqtt_server_go.Process.Deliver.{for_topics}

-- No topic stands in two entries.
unfoldable pub Distinct : Map Bytes ℕ → Type 0
Distinct [] = Unit {0}
Distinct ((t, q) ∷ entries) = Fresh t entries × Distinct entries

module _ {S : Type 0} (body : S → M S) (topic : Bytes) where
  pub for_topics_absent :
      (entries : Map Bytes ℕ) (st : S) (s : Server)
      → lookup topic entries ≡ none
      → for_topics body topic entries st s ≡ pure st s
  unfolding for_topics lookup
  for_topics_absent [] st s e = refl
  for_topics_absent ((t, q) ∷ entries) st s e = elim (Bool-cases (bytes_beq t topic)) [
    | inl same ↦ absurd (some-none (rw same at e))
    | inr other ↦ rw other (for_topics_absent entries st s (rw other at e))
  ]
    where
      some-none : {q : ℕ} → ◌≢◌ {A = Option ℕ} (some q) none
      some-none e = cc

  bind_same :
      (o : Outcome (S × Server)) (f : S → M S)
      → ((st : S) (s : Server) → f st s ≡ pure st s)
      → and_then o (λ r. f r.0 r.1) ≡ o
  bind_same (ok (st, s)) f k = k st s
  bind_same panic f k = refl
  bind_same stuck f k = refl

  pub for_topics_present :
      (entries : Map Bytes ℕ) (st : S) (s : Server) {q : ℕ}
      → Distinct entries
      → lookup topic entries ≡ some q
      → for_topics body topic entries st s ≡ body st s
  unfolding for_topics lookup Distinct
  for_topics_present [] st s d e = absurd (cc)
  for_topics_present ((t, q) ∷ entries) st s (fresh, d) e = elim (Bool-cases (bytes_beq t topic)) [
    | inl same ↦
        let absent : lookup topic entries ≡ none = rw ((bytes_beq_iff t topic).0 same) at fresh in
        rw same (bind_same (body st s) _ (λ st' s'. for_topics_absent entries st' s' absent))
    | inr other ↦ rw other (for_topics_present entries st s d (rw other at e))
  ]

other_way : (t u : Bytes) → bytes_beq u t ≡ false → bytes_beq t u ≡ false
other_way t u e = ground (arith, bytes_beq_iff t u, bytes_beq_iff u t)

insert-Fresh :
    (t u : Bytes) (q : ℕ) (m : Map Bytes ℕ)
    → bytes_beq u t ≡ false
    → Fresh u m
    → Fresh u (insert t q m)
insert-Fresh t u q m e fresh = rw (lookup-insert t u q m, other_way t u e) fresh

delete-Fresh :
    (t u : Bytes) (m : Map Bytes ℕ) → bytes_beq u t ≡ false → Fresh u m → Fresh u (delete t m)
delete-Fresh t u m e fresh = rw (lookup-delete t u m, other_way t u e) fresh

-- A subscription and its end keep the topics distinct.
pub insert-Distinct : (t : Bytes) (q : ℕ) (m : Map Bytes ℕ) → Distinct m → Distinct (insert t q m)
unfolding insert Distinct lookup
insert-Distinct t q [] d = (refl, tt)
insert-Distinct t q ((u, r) ∷ m) (fresh, d) = elim (Bool-cases (bytes_beq u t)) [
  | inl same ↦ rw same (rw ((bytes_beq_iff u t).0 same) at fresh, d)
  | inr other ↦ rw other (insert-Fresh t u q m other fresh, insert-Distinct t q m d)
]

pub delete-Distinct : (t : Bytes) (m : Map Bytes ℕ) → Distinct m → Distinct (delete t m)
unfolding delete Distinct
delete-Distinct t [] d = tt
delete-Distinct t ((u, r) ∷ m) (fresh, d) = elim (Bool-cases (bytes_beq u t)) [
  | inl same ↦ rw same (delete-Distinct t m d)
  | inr other ↦ rw other (delete-Fresh t u m other fresh, delete-Distinct t m d)
]
