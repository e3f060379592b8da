-- ===== src/Utils/Address/Numbers.antt =====
-- The number of a dotted address and a port.
use mqtt_server_go.Prelude.{
  ℕ, zero, suc, ◌+◌, ◌*◌, ◌/◌, ◌%◌, ◌^◌, ◌<◌, ◌≤◌, ◌≡◌, refl, ap, ◌∙◌, sym, arith, bit_or,
  bit_or_disjoint, [], ◌∷◌, ◌++◌, append-nil, Bytes, true, false, Bool-cases, inl, inr, ltb, lt→ltb,
  le→ltb, ltb→lt, Option, some, ok, slice_front,
}
use native.Mathlib.Nat.{pow-suc}
use mqtt_server_go.Strconv.{itoa, digits}
use mqtt_server_go.Strconv.RoundTrip.{atoi-itoa}
use mqtt_server_go.Strconv.Cut.{
  Without, Without-append, itoa-Without, index_of-append, slice_behind,
}
use mqtt_server_go.Utils.Address.Quads.{Quad, dotted, value_of, remote_addr, shifted, digits_of}
use mqtt_server_go.Utils.Address.{
  dtoi_loop, dtoi, behind_dot, octets, parse_ipv4, parse_ip_to4, big_endian, addr_2_int,
}

-- The reading of a number stops in front of the text.
abbrev Stops : Bytes → Type 0
Stops [] = Unit {0}
Stops (c ∷ s) = c < 48

dtoi_loop-Stops : (s : Bytes) (n : ℕ) → Stops s → dtoi_loop s n ≡ some (n, s)
unfolding dtoi_loop
dtoi_loop-Stops [] n h = refl
dtoi_loop-Stops (c ∷ s) n h = ground arith

dtoi_loop-digits :
    (fuel n : ℕ) (s : Bytes)
    → n < 10 ^ fuel
    → n < 0xffffff
    → dtoi_loop (digits fuel n s) 0 ≡ dtoi_loop s n
unfolding dtoi_loop digits
dtoi_loop-digits zero n s h k = ap (dtoi_loop s) (omega arith)
dtoi_loop-digits (suc fuel) n s h k =
    ground (arith, dtoi_loop-digits fuel (n / 10) ((48 + n % 10) ∷ s), pow-suc 10 fuel)

-- The text starts with a digit.
abbrev Digit : Bytes → Type 0
Digit [] = ⊥
Digit (c ∷ s) = (48 ≤ c) × (c ≤ 57)

digits-Digit : (fuel n : ℕ) (s : Bytes) → Digit s → Digit (digits fuel n s)
unfolding digits
digits-Digit zero n s h = h
digits-Digit (suc fuel) n s h = elim (Bool-cases (ltb n 10)) [
  | inl e ↦ let h' = ltb→lt n 10 e in rw e (omega arith, omega arith)
  | inr e ↦ rw e (digits-Digit fuel (n / 10) ((48 + n % 10) ∷ s) (omega arith, omega arith))
]

digits_step-Digit : (fuel n : ℕ) (s : Bytes) → Digit (digits (suc fuel) n s)
unfolding digits
digits_step-Digit fuel n s = elim (Bool-cases (ltb n 10)) [
  | inl e ↦ let h' = ltb→lt n 10 e in rw e (omega arith, omega arith)
  | inr e ↦ rw e (digits-Digit fuel (n / 10) ((48 + n % 10) ∷ s) (omega arith, omega arith))
]

digits-append : (fuel n : ℕ) (s t : Bytes) → digits fuel n s ++ t ≡ digits fuel n (s ++ t)
unfolding digits
digits-append zero n s t = refl
digits-append (suc fuel) n s t = ground (arith, digits-append fuel (n / 10) ((48 + n % 10) ∷ s) t)

dtoi-Digit : (s : Bytes) → Digit s → dtoi s ≡ dtoi_loop s 0
unfolding dtoi
dtoi-Digit [] h = absurd h
dtoi-Digit (c ∷ s) h = ground arith

-- A number is read up to its end.
dtoi-itoa : (n : ℕ) (s : Bytes) → n < 256 → Stops s → dtoi (itoa n ++ s) ≡ some (n, s)
unfolding itoa
dtoi-itoa n s h stops =
    rw (lt→ltb n (2 ^ 63) (omega arith), digits-append 20 n [] s)
      (dtoi-Digit _ (digits_step-Digit 19 n s)
        ∙ dtoi_loop-digits 20 n s (omega arith) (omega arith)
        ∙ dtoi_loop-Stops s n stops)

octets_dot :
    (count n : ℕ) (s : Bytes) (ns : Bytes)
    → n < 256
    → Stops s
    → octets count true s ≡ some ns
    → octets (suc count) true (b'.' ∷ itoa n ++ s) ≡ some (n ∷ ns)
unfolding octets behind_dot
octets_dot count n s ns h stops e = rw (dtoi-itoa n s h stops, e, le→ltb 255 n (omega arith)) refl

octets_first :
    (count n : ℕ) (s : Bytes) (ns : Bytes)
    → n < 256
    → Stops s
    → octets count true s ≡ some ns
    → octets (suc count) false (itoa n ++ s) ≡ some (n ∷ ns)
unfolding octets behind_dot
octets_first count n s ns h stops e = rw (dtoi-itoa n s h stops, e, le→ltb 255 n (omega arith)) refl

octets_last : (d : ℕ) → d < 256 → octets 1 true (b'.' ∷ itoa d) ≡ some (d ∷ [])
unfolding octets
octets_last d h =
    ap (λ (s : Bytes). octets 1 true (b'.' ∷ s)) (sym (append-nil (itoa d)))
    ∙ octets_dot 0 d [] [] h tt refl

parse_ipv4_lem : (q : Quad) → parse_ipv4 (dotted q) ≡ some (q.a ∷ q.b ∷ q.c ∷ q.d ∷ [])
unfolding parse_ipv4
parse_ipv4_lem q = octets_first 3 q.a _ _ q.a_fits (omega arith) (
    octets_dot 2 q.b _ _ q.b_fits (omega arith)
      (octets_dot 1 q.c _ _ q.c_fits (omega arith) (octets_last q.d q.d_fits)))

module _ (parse_ipv6_to4 : Bytes → Option Bytes) where
  parse_ip_to4-dot :
      (s xs ys : Bytes)
      → Without b'.' xs
      → Without b':' xs
      → parse_ip_to4 parse_ipv6_to4 s (xs ++ b'.' ∷ ys) ≡ parse_ipv4 s
  unfolding parse_ip_to4
  parse_ip_to4-dot s [] ys h k = refl
  parse_ip_to4-dot s (x ∷ xs) ys (h, hs) (k, ks) = ground (arith, parse_ip_to4-dot s xs ys hs ks)

  no_colon : (n : ℕ) → n < 256 → Without b':' (itoa n)
  no_colon n h = itoa-Without b':' (λ d lt e. omega arith) n (omega arith)

  dotted-Without : (q : Quad) → Without b':' (dotted q)
  dotted-Without q =
      behind q.a _ q.a_fits (behind q.b _ q.b_fits (behind q.c _ q.c_fits (no_colon q.d q.d_fits)))
    where
      behind : (n : ℕ) (s : Bytes) → n < 256 → Without b':' s → Without b':' (itoa n ++ b'.' ∷ s)
      behind n s h w =
          Without-append b':' (itoa n) (b'.' ∷ s) (no_colon n h)
            ((λ (e : 46 ≡ 58). absurd (omega arith)), w)

  dotted-bytes :
      (q : Quad)
      → parse_ip_to4 parse_ipv6_to4 (dotted q) (dotted q) ≡ some (q.a ∷ q.b ∷ q.c ∷ q.d ∷ [])
  dotted-bytes q =
      parse_ip_to4-dot (dotted q) (itoa q.a) _
        (itoa-Without b'.' (λ d lt e. omega arith) q.a (lt_trans q.a_fits)) (no_colon q.a q.a_fits)
      ∙ parse_ipv4_lem q
    where
      lt_trans : {n : ℕ} → n < 256 → n < 2 ^ 63
      lt_trans h = omega arith

  -- For a dotted address of four bytes and a port of 16 bits, in decimal: the number has the four bytes,
  -- the first as its highest, and behind them the 16 bits of the port.
  pub addr_2_int_lem :
      (q : Quad) (port : ℕ)
      → port < 2 ^ 16
      → addr_2_int parse_ipv6_to4 (remote_addr q port) ≡ ok (value_of q * 2 ^ 16 + port)
  unfolding addr_2_int big_endian
  addr_2_int_lem q port fits =
      rw
        (
          index_of-append b':' (dotted q) (itoa port) (dotted-Without q),
          slice_front (dotted q) (b':' ∷ itoa port),
          slice_behind b':' (dotted q) (itoa port),
          dotted-bytes q,
          atoi-itoa port (omega arith),
        )
        (ap (λ (w : ℕ). ok (bit_or w port)) (shifted q)
          ∙ ap ok (bit_or_disjoint 16 (value_of q) port fits))

  -- Two connections get the same name only when their addresses are the same.
  pub addr_2_int-injective :
      (q q' : Quad) (port port' : ℕ)
      → port < 2 ^ 16
      → port' < 2 ^ 16
      → addr_2_int parse_ipv6_to4 (remote_addr q port)
        ≡ addr_2_int parse_ipv6_to4 (remote_addr q' port')
      → remote_addr q port ≡ remote_addr q' port'
  addr_2_int-injective q q' port port' fits fits' e =
      let same : value_of q * 2 ^ 16 + port ≡ value_of q' * 2 ^ 16 + port' =
        cc (addr_2_int_lem q port fits, addr_2_int_lem q' port' fits') in
      let (x, y, z, w, v) = digits_of q q' port port' fits fits' same in
      λ i.
        (itoa (x i) ++ b'.' ∷ (itoa (y i) ++ b'.' ∷ (itoa (z i) ++ b'.' ∷ itoa (w i))))
        ++ b':' ∷ itoa (v i)
