-- ===== src/Prelude/Go.antt =====
-- The result of running Go code: a value, or a run-time panic (an index out of range, a nil pointer,
-- a failed type assertion), which ends the whole process since nothing recovers. `stuck` is no Go
-- result: a loop of the model ran out of fuel.
use Prim.Native.Nat.{ℕ, ◌+◌, ◌-◌, ◌≤◌}
use mathlib.Core.Logic.{◌≢◌}
use mathlib.Core.Path.{◌≡◌, ap, refl}
use mathlib.Core.Bool.{◌&&◌}
use mathlib.Core.List.{List, ◌∷◌, ◌++◌}
use mathlib.Core.Option.{Option, none, some}
use native.Mathlib.Omega.{arith}
use native.Mathlib.Nat.{sub-zero}
use mqtt_server_go.Prelude.Tests.{leb, if◌then◌else◌, le→leb}
use mqtt_server_go.Prelude.Lists.{
  length, get_elem?, take, drop, length-append, take-length_append, drop-length_append, length-take,
  length-drop, drop-drop, drop-take, get_elem?-window, get_elem?-append,
}

pub data Outcome {ℓ} (A : Type ℓ) : Type ℓ where
  ok : A → Outcome A
  panic : Outcome A
  stuck : Outcome A

infixl 5 ◌>>=◌
abbrev pub ◌>>=◌ {ℓ κ} : {A : Type ℓ} {B : Type κ} → Outcome A → (A → Outcome B) → Outcome B
ok a >>= f = f a
panic >>= f = panic
stuck >>= f = stuck

abbrev pub or_panic {ℓ} : {A : Type ℓ} → Option A → Outcome A
or_panic none = panic
or_panic (some a) = ok a

pub ok_pair {ℓ κ} :
    {A : Type ℓ} {B : Type κ} {a a' : A} {b b' : B}
    → a ≡ a'
    → b ≡ b'
    → ◌≡◌ {A = Outcome (A × B)} (ok (a, b)) (ok (a', b'))
ok_pair p q = λ i. ok (p i, q i)

-- `xs[i]`
unfoldable pub index_at {ℓ} : {A : Type ℓ} → List A → ℕ → Outcome A
index_at xs i = or_panic (get_elem? xs i)

-- `xs[lo:hi]` of a slice whose capacity is its length.
unfoldable pub slice {ℓ} : {A : Type ℓ} → List A → ℕ → ℕ → Outcome (List A)
slice xs lo hi = if leb lo hi && leb hi (length xs) then ok (take (hi - lo) (drop lo xs)) else panic

-- `xs[lo:]`
unfoldable pub slice_from {ℓ} : {A : Type ℓ} → List A → ℕ → Outcome (List A)
slice_from xs lo = if leb lo (length xs) then ok (drop lo xs) else panic

module _ {ℓ} {A : Type ℓ} where
  pub index_at-append :
      (xs ys : List A) (y : A) (i : ℕ) → i ≡ length xs → index_at (xs ++ y ∷ ys) i ≡ ok y
  unfolding index_at
  index_at-append xs ys y i e = rw e (ap or_panic (get_elem?-append xs ys y))

  slice_inv :
      (xs : List A) (lo hi : ℕ) {ys : List A}
      → slice xs lo hi ≡ ok ys
      → (lo ≤ hi) × (hi ≤ length xs) × (take (hi - lo) (drop lo xs) ≡ ys)
  unfolding slice
  slice_inv xs lo hi e = ground arith

  pub slice_intro :
      (xs : List A) (lo hi : ℕ) {ys : List A}
      → lo ≤ hi
      → hi ≤ length xs
      → take (hi - lo) (drop lo xs) ≡ ys
      → slice xs lo hi ≡ ok ys
  unfolding slice
  slice_intro xs lo hi p q e = rw (le→leb lo hi p, le→leb hi (length xs) q, e)

  pub length-slice :
      (xs : List A) (lo hi : ℕ) {ys : List A} → slice xs lo hi ≡ ok ys → length ys ≡ hi - lo
  length-slice xs lo hi e =
      let (p, q, r) = slice_inv xs lo hi e in
      omega (arith, ap length r, length-take (hi - lo) (drop lo xs), length-drop lo xs)

  -- A front part of a buffer.
  pub slice_front : (ys zs : List A) → slice (ys ++ zs) 0 (length ys) ≡ ok ys
  slice_front ys zs =
      slice_intro (ys ++ zs) 0 (length ys) (omega arith) (omega (arith, length-append ys zs))
        (rw (sub-zero (length ys)) (take-length_append ys zs))

  -- A reader moves its index past what it has read.
  pub slice_advance :
      (xs : List A) (lo hi : ℕ) (read left : List A) (next : ℕ)
      → slice xs lo hi ≡ ok (read ++ left)
      → next ≡ lo + length read
      → slice xs next hi ≡ ok left
  slice_advance xs lo hi read left next e n =
      let (p, q, r) = slice_inv xs lo hi e in
      let total = length-slice xs lo hi e in
      slice_intro xs next hi (omega (arith, n, total, length-append read left)) q (rest r)
    where
      width : hi - (lo + length read) ≡ hi - lo - length read
      width = omega arith

      rest : take (hi - lo) (drop lo xs) ≡ read ++ left → take (hi - next) (drop next xs) ≡ left
      rest r =
          rw
            (
              n,
              width,
              ← drop-drop lo (length read) xs,
              ← drop-take (length read) (hi - lo) (drop lo xs),
              r,
            )
            (drop-length_append read left)

  -- What a reader sees first.
  pub index_at-slice :
      (xs : List A) (lo hi : ℕ) {y : A} {ys : List A}
      → slice xs lo hi ≡ ok (y ∷ ys)
      → index_at xs lo ≡ ok y
  unfolding index_at
  index_at-slice xs lo hi e =
      let (p, q, r) = slice_inv xs lo hi e in ap or_panic (get_elem?-window (hi - lo) lo xs r)

-- `stuck` comes only from a loop without fuel.
module _ {ℓ} {A : Type ℓ} where
  pub index_at-ne-stuck : (xs : List A) (i : ℕ) → index_at xs i ≢ stuck
  unfolding index_at
  index_at-ne-stuck xs i = or_panic-ne-stuck (get_elem? xs i)
    where
      or_panic-ne-stuck : (o : Option A) → or_panic o ≢ stuck
      or_panic-ne-stuck none e = cc
      or_panic-ne-stuck (some a) e = cc

  pub slice-ne-stuck : (xs : List A) (lo hi : ℕ) → slice xs lo hi ≢ stuck
  unfolding slice
  slice-ne-stuck xs lo hi e = ground arith

  pub >>=-ne-stuck {κ} :
      {B : Type κ} (m : Outcome A) (f : A → Outcome B)
      → m ≢ stuck
      → ((a : A) → m ≡ ok a → f a ≢ stuck)
      → (m >>= f) ≢ stuck
  >>=-ne-stuck (ok a) f h k = k a refl
  >>=-ne-stuck panic f h k = λ e. cc
  >>=-ne-stuck stuck f h k = absurd (h refl)

  -- What a computation that ends well went through.
  pub >>=-inv {κ} :
      {B : Type κ} (m : Outcome A) (f : A → Outcome B) {b : B}
      → (m >>= f) ≡ ok b
      → (a : A) × (m ≡ ok a) × (f a ≡ ok b)
  >>=-inv (ok a) f e = (a, refl, e)
  >>=-inv panic f e = cc
  >>=-inv stuck f e = cc

  pub ok-ne-stuck : (a : A) → ok a ≢ stuck
  ok-ne-stuck a e = cc
