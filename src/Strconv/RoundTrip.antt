-- ===== src/Strconv/RoundTrip.antt =====
-- `Atoi` reads what `Itoa` writes.
use mqtt_server_go.Prelude.{
  ℕ, zero, suc, ◌+◌, ◌-◌, ◌/◌, ◌%◌, ◌^◌, ◌≤◌, ◌<◌, ◌≡◌, ◌≢◌, refl, ap, arith, [], ◌∷◌, Bytes, false,
  ltb, lt→ltb, Bool-cases, ◌∙◌, ltb→lt, inl, inr,
}
use native.Mathlib.Nat.{pow-suc}
use mqtt_server_go.Strconv.{value, scan, positive, negative, unsigned, atoi, digits, itoa}

scan-digits :
    (fuel n : ℕ) (s : Bytes) → n < 10 ^ fuel → n < 2 ^ 64 → scan (digits fuel n s) 0 ≡ scan s n
unfolding scan digits
scan-digits zero n s h k = ap (scan s) (omega arith)
scan-digits (suc fuel) n s h k =
    ground (arith, scan-digits fuel (n / 10) ((48 + n % 10) ∷ s), pow-suc 10 fuel)

digits-ne-nil : (fuel n : ℕ) (s : Bytes) → s ≢ [] → digits fuel n s ≢ []
unfolding digits
digits-ne-nil zero n s h = h
digits-ne-nil (suc fuel) n s h = ground (arith, digits-ne-nil fuel (n / 10) ((48 + n % 10) ∷ s))

unsigned-scan : (s : Bytes) → s ≢ [] → unsigned s ≡ scan s 0
unfolding unsigned
unsigned-scan [] h = absurd (h refl)
unsigned-scan (c ∷ s) h = refl

digits_step-ne-nil : (fuel n : ℕ) → digits (suc fuel) n [] ≢ []
unfolding digits
digits_step-ne-nil fuel n = ground (arith, digits-ne-nil fuel (n / 10) ((48 + n % 10) ∷ []))

-- The digits of a number are read back.
unsigned-digits : (n : ℕ) → n < 2 ^ 64 → unsigned (digits 20 n []) ≡ value n
unfolding scan
unsigned-digits n h =
    unsigned-scan _ (digits_step-ne-nil 19 n) ∙ scan-digits 20 n [] (omega arith) h

-- Without a sign, the two readers agree.
atoi-unsigned : (s : Bytes) (n : ℕ) → unsigned s ≡ value n → atoi s ≡ positive (value n)
unfolding atoi unsigned scan
atoi-unsigned [] n h = cc
atoi-unsigned (c ∷ s) n h = ground arith

atoi-minus : (s : Bytes) (n : ℕ) → unsigned s ≡ value n → atoi (45 ∷ s) ≡ negative (value n)
unfolding atoi
atoi-minus s n h = rw h refl

positive_lem : (n : ℕ) → n < 2 ^ 63 → positive (value n) ≡ (n, false)
unfolding positive
positive_lem n h = rw (lt→ltb n (2 ^ 63) h) refl

negative_lem : (n : ℕ) → 2 ^ 63 ≤ n → n < 2 ^ 64 → negative (value (2 ^ 64 - n)) ≡ (n, false)
unfolding negative
negative_lem n h k = ground arith

-- Every int is read back from its decimal print, a negative one too, and without an error.
pub atoi-itoa : (n : ℕ) → n < 2 ^ 64 → atoi (itoa n) ≡ (n, false)
unfolding itoa
atoi-itoa n h = elim (Bool-cases (ltb n (2 ^ 63))) [
  | inl e ↦ rw e (atoi-unsigned _ n (unsigned-digits n h) ∙ positive_lem n (ltb→lt n (2 ^ 63) e))
  | inr e ↦ rw e (
      atoi-minus _ (2 ^ 64 - n) (unsigned-digits (2 ^ 64 - n) (ground arith))
      ∙ negative_lem n (ground arith) h)
]
