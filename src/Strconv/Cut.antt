-- ===== src/Strconv/Cut.antt =====
-- A string cut at the first place of a byte, as the program does at the colon of an address.
use mqtt_server_go.Prelude.{
  ℕ, zero, suc, ltb, lt→ltb, ltb→lt, Bool-cases, inl, inr, ◌<◌, ◌/◌, ◌%◌, ◌^◌, ◌+◌, ◌≡◌, ◌≢◌, refl,
  arith, [], ◌∷◌, ◌++◌, append_assoc, All, Bytes, length, length-append, Bool, true, not, ◌&&◌,
  some, ok, slice, slice_intro, take-length, slice_advance, ◌==◌, ==_self,
}
use native.Mathlib.Nat.{sub-zero}
use mqtt_server_go.Strconv.{index_of, itoa, digits}

abbrev pub Without : ℕ → Bytes → Type 0
Without x = All (λ y. y ≢ x)

pub index_of-append :
    (x : ℕ) (xs ys : Bytes) → Without x xs → index_of x (xs ++ x ∷ ys) ≡ some (length xs)
unfolding index_of
index_of-append x [] ys h = rw (==_self x) refl
index_of-append x (y ∷ xs) ys (h, hs) = ground (arith, index_of-append x xs ys)

slice_whole : (s : Bytes) → slice s 0 (length s) ≡ ok s
slice_whole s =
    slice_intro s 0 (length s) (omega arith) (omega arith)
      (rw (sub-zero (length s)) (take-length s))

-- `s[i+1:len(s)]`, for the place i of the byte
pub slice_behind :
    (x : ℕ) (xs ys : Bytes) → slice (xs ++ x ∷ ys) (length xs + 1) (length (xs ++ x ∷ ys)) ≡ ok ys
slice_behind x xs ys =
    slice_advance (xs ++ x ∷ ys) 0 (length (xs ++ x ∷ ys)) (xs ++ x ∷ []) ys _ whole
      (omega (arith, length-append xs (x ∷ [])))
  where
    whole : slice (xs ++ x ∷ ys) 0 (length (xs ++ x ∷ ys)) ≡ ok ((xs ++ x ∷ []) ++ ys)
    whole = rw (append_assoc xs (x ∷ []) ys) (slice_whole (xs ++ x ∷ ys))

pub Without-append : (x : ℕ) (xs ys : Bytes) → Without x xs → Without x ys → Without x (xs ++ ys)
Without-append x [] ys h k = k
Without-append x (y ∷ xs) ys (h, hs) k = (h, Without-append x xs ys hs k)

-- A number's digits lack what is no digit.
module _ (x : ℕ) (no : (d : ℕ) → d < 10 → 48 + d ≢ x) where
  digits-Without : (fuel n : ℕ) (s : Bytes) → Without x s → Without x (digits fuel n s)
  unfolding digits
  digits-Without zero n s h = h
  digits-Without (suc fuel) n s h = elim (Bool-cases (ltb n 10)) [
    | inl e ↦ rw e (no n (ltb→lt n 10 e), h)
    | inr e ↦ rw e (digits-Without fuel (n / 10) ((48 + n % 10) ∷ s) (no (n % 10) (omega arith), h))
  ]

  pub itoa-Without : (n : ℕ) → n < 2 ^ 63 → Without x (itoa n)
  unfolding itoa
  itoa-Without n fits = rw (lt→ltb n (2 ^ 63) fits) (digits-Without 20 n [] tt)

-- A test for it
abbrev pub lacks : ℕ → Bytes → Bool
lacks x [] = true
lacks x (y ∷ s) = not (y == x) && lacks x s

pub lacks_sound : (x : ℕ) (s : Bytes) → lacks x s ≡ true → Without x s
lacks_sound x [] e = tt
lacks_sound x (y ∷ s) e =
    let both : (not (y == x) ≡ true) × (lacks x s ≡ true) = ground arith in
    (ground arith, lacks_sound x s both.1)
