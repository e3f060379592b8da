-- ===== src/Manager/Window.antt =====
-- The window of a list that the loops of manager/http_clientinfo_handle.go and
-- manager/http_clientsub_handle.go keep.
use mqtt_server_go.Prelude.{
  ℕ, zero, suc, ◌+◌, ◌-◌, ◌%◌, ◌^◌, ◌≤◌, ◌<◌, ◌≡◌, refl, ap, arith, List, [], ◌∷◌, ◌++◌, length,
  take, drop, take-nil, Bool, false, ◌&&◌, ltb, leb, if◌then◌else◌,
}
use native.Mathlib.Nat.{suc-add}
use mqtt_server_go.Strconv.{lt_int, le_int}

-- `index >= start && index < start+limit`, on ints
unfoldable pub in_window : ℕ → ℕ → ℕ → Bool
in_window start limit index = le_int start index && lt_int index ((start + limit) % 2 ^ 64)

-- The items whose index is in the window, counted from `index`
abbrev pub window {ℓ} : {A : Type ℓ} → ℕ → ℕ → ℕ → List A → List A
window start limit index [] = []
window start limit index (x ∷ xs) =
    let rest = window start limit ((index + 1) % 2 ^ 64) xs in
    if in_window start limit index then x ∷ rest else rest

module _ (start limit : ℕ) (fits : start + limit < 2 ^ 63) where
  in_window_lem :
      (index : ℕ)
      → index < 2 ^ 63
      → in_window start limit index ≡ (leb start index && ltb index (start + limit))
  unfolding in_window
  in_window_lem index h = ground arith

  module _ {ℓ} {A : Type ℓ} where
    window_inside :
        (index t : ℕ) (xs : List A)
        → index + length xs < 2 ^ 63
        → start ≤ index
        → t ≡ start + limit - index
        → window start limit index xs ≡ take t xs
    window_inside index zero [] h p e = refl
    window_inside index (suc t) [] h p e = refl
    window_inside index zero (x ∷ xs) h p e =
        ground (arith, in_window_lem index, window_inside (index + 1) 0 xs)
    window_inside index (suc t) (x ∷ xs) h p e =
        ground (arith, in_window_lem index, window_inside (index + 1) t xs)

    -- Up to the window's start
    window_before :
        (index d : ℕ) (xs : List A)
        → index + length xs < 2 ^ 63
        → index + d ≡ start
        → window start limit index xs ≡ take limit (drop d xs)
    window_before index zero xs h e = window_inside index limit xs h (omega arith) (omega arith)
    window_before index (suc d) [] h e = rw (take-nil limit) refl
    window_before index (suc d) (x ∷ xs) h e =
        ground (arith, in_window_lem index, window_before (index + 1) d xs)

    -- A window whose bounds are ints is a part of the list.
    pub window_lem :
        (xs : List A) → length xs < 2 ^ 63 → window start limit 0 xs ≡ take limit (drop start xs)
    window_lem xs h = window_before 0 start xs (omega arith) (omega arith)

-- The sum of the bounds wraps around: it is negative, and no index is below it.
module _ (start limit : ℕ) (p : start < 2 ^ 63) (q : limit < 2 ^ 63)
    (wraps : 2 ^ 63 ≤ start + limit) where
  outside : (index : ℕ) → index < 2 ^ 63 → in_window start limit index ≡ false
  unfolding in_window
  outside index h = ground arith

  pub window_wraps {ℓ} :
      {A : Type ℓ} (index : ℕ) (xs : List A)
      → index + length xs < 2 ^ 63
      → window start limit index xs ≡ []
  window_wraps index [] h = refl
  window_wraps index (x ∷ xs) h = ground (arith, outside index, window_wraps (index + 1) xs)

-- Two windows in a row are one.
pub take-drop_append {ℓ} :
    {A : Type ℓ} (m n : ℕ) (xs : List A) → take m xs ++ take n (drop m xs) ≡ take (m + n) xs
take-drop_append zero n xs = ap (λ (k : ℕ). take k xs) (omega arith)
take-drop_append (suc m) n [] = rw (take-nil n, take-nil (suc m + n)) refl
take-drop_append (suc m) n (x ∷ xs) = rw (suc-add m n) (ap (◌∷◌ x) (take-drop_append m n xs))
