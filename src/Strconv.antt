-- ===== src/Strconv.antt =====
-- What the program uses of Go's strconv: `Atoi` and `Itoa`. An `int` is its 64-bit word, so that the
-- words from 2^63 on are the negative numbers.
pub mod RoundTrip
pub mod Cut
use mqtt_server_go.Prelude.{
  ℕ, zero, suc, ◌+◌, ◌-◌, ◌*◌, ◌/◌, ◌%◌, ◌^◌, List, [], ◌∷◌, ◌++◌, Bytes, Bool, true, false, ◌||◌,
  ltb, leb, ◌==◌, if◌then◌else◌, Option, none, some,
}

-- `x < y` and `x <= y` of two ints
abbrev pub lt_int : ℕ → ℕ → Bool
lt_int x y = ltb ((x + 2 ^ 63) % 2 ^ 64) ((y + 2 ^ 63) % 2 ^ 64)

abbrev pub le_int : ℕ → ℕ → Bool
le_int x y = leb ((x + 2 ^ 63) % 2 ^ 64) ((y + 2 ^ 63) % 2 ^ 64)

-- The result of reading digits into a uint64
pub data Parsed : Type 0 where
  value : ℕ → Parsed
  bad_syntax : Parsed
  bad_range : Parsed

unfoldable pub scan : Bytes → ℕ → Parsed
scan [] n = value n
scan (c ∷ s) n =
    let m = n * 10 + (c - b'0') in
    let rest = scan s m in
    if ltb c b'0' || ltb b'9' c then bad_syntax else if ltb (2 ^ 64 - 1) m then bad_range else rest

-- The int and whether there is an error. On an error of range the int is the nearest one.
unfoldable pub positive : Parsed → ℕ × Bool
positive (value n) = if ltb n (2 ^ 63) then (n, false) else (2 ^ 63 - 1, true)
positive bad_syntax = (0, true)
positive bad_range = (2 ^ 63 - 1, true)

unfoldable pub negative : Parsed → ℕ × Bool
negative (value n) = if leb n (2 ^ 63) then ((2 ^ 64 - n) % 2 ^ 64, false) else (2 ^ 63, true)
negative bad_syntax = (0, true)
negative bad_range = (2 ^ 63, true)

unfoldable pub unsigned : Bytes → Parsed
unsigned [] = bad_syntax
unsigned (c ∷ s) = scan (c ∷ s) 0

unfoldable pub atoi : Bytes → ℕ × Bool
atoi [] = (0, true)
atoi (c ∷ s) =
    if c == b'+'
    then positive (unsigned s)
    else if c == b'-'
    then negative (unsigned s)
    else positive (scan (c ∷ s) 0)

-- The decimal digits in front of `s`. The fuel is a bound on their number.
unfoldable pub digits : ℕ → ℕ → Bytes → Bytes
digits zero n s = s
digits (suc fuel) n s =
    let rest = digits fuel (n / 10) ((b'0' + n % 10) ∷ s) in
    if ltb n 10 then (b'0' + n) ∷ s else rest

-- `strconv.Itoa`, and `%d`: a uint64 has at most 20 digits.
unfoldable pub itoa : ℕ → Bytes
itoa n = if ltb n (2 ^ 63) then digits 20 n [] else b'-' ∷ digits 20 (2 ^ 64 - n) []

-- `strings.Index(s, ":")`, for a byte in place of the colon
unfoldable pub index_of : ℕ → Bytes → Option ℕ
index_of x [] = none
index_of x (y ∷ ys) = if y == x then some 0 else next (index_of x ys)
  where
    next : Option ℕ → Option ℕ
    next none = none
    next (some i) = some (i + 1)
