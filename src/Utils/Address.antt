-- ===== src/Utils/Address.antt =====
-- `Addr2Int` and `IpStr2Uint32` of utils/utils.go, with what they use of net: `ParseIP` and `To4`, as
-- Go 1.16 has them.
pub mod Numbers
pub mod Quads
use mqtt_server_go.Prelude.{
  ℕ, zero, suc, ◌+◌, ◌-◌, ◌*◌, ◌%◌, ◌^◌, bit_or, List, [], ◌∷◌, ◌++◌, Bytes, length, Bool, true,
  false, ◌||◌, ltb, leb, ◌==◌, if◌then◌else◌, Option, none, some, Outcome, ok, ◌>>=◌, or_panic,
  slice,
}
use mqtt_server_go.Strconv.{atoi, index_of}

-- `dtoi`, behind its first digits: the number and what follows it; 0xFFFFFF is too big.
unfoldable pub dtoi_loop : Bytes → ℕ → Option (ℕ × Bytes)
dtoi_loop [] n = some (n, [])
dtoi_loop (c ∷ s) n =
    let m = n * 10 + (c - b'0') in
    let rest = dtoi_loop s m in
    if ltb c b'0' || ltb b'9' c then some (n, c ∷ s) else if leb 0xffffff m then none else rest

-- At least one digit
unfoldable pub dtoi : Bytes → Option (ℕ × Bytes)
dtoi [] = none
dtoi (c ∷ s) = if ltb c b'0' || ltb b'9' c then none else dtoi_loop (c ∷ s) 0

abbrev then_option {ℓ κ} : {A : Type ℓ} {B : Type κ} → Option A → (A → Option B) → Option B
then_option none f = none
then_option (some a) f = f a

-- `if s[0] != '.'`, and the rest
unfoldable pub behind_dot : Bool → Bytes → Option Bytes
behind_dot false s = some s
behind_dot true [] = none
behind_dot true (c ∷ s) = if c == b'.' then some s else none

-- The last `count` numbers of the four. A dot stands in front of each but the first.
unfoldable pub octets : ℕ → Bool → Bytes → Option Bytes
octets zero dot [] = some []
octets zero dot (c ∷ s) = none
octets (suc count) dot s = then_option (behind_dot dot s) λ s. then_option (dtoi s) λ r.
    let rest = then_option (octets count true r.1) λ ns. some (r.0 ∷ ns) in
    if ltb 0xff r.0 then none else rest

unfoldable pub parse_ipv4 : Bytes → Option Bytes
parse_ipv4 s = octets 4 false s

-- The four bytes, or `nil`; `parse_ipv6_to4` is the result for a text where a colon comes before a dot.
module _ (parse_ipv6_to4 : Bytes → Option Bytes) where
  unfoldable pub parse_ip_to4 : Bytes → Bytes → Option Bytes
  parse_ip_to4 s [] = none
  parse_ip_to4 s (c ∷ cs) =
      let rest = parse_ip_to4 s cs in
      if c == b'.' then parse_ipv4 s else if c == b':' then parse_ipv6_to4 s else rest

-- `big.Int.SetBytes` and `Int64`, for four bytes at most
unfoldable pub big_endian : Bytes → ℕ → ℕ
big_endian [] n = n
big_endian (b ∷ bs) n = big_endian bs (n * 256 + b)

abbrev pub number_of : Option Bytes → ℕ
number_of none = 0
number_of (some bs) = big_endian bs 0

module _ (parse_ipv6_to4 : Bytes → Option Bytes) where
  -- A text without a colon panics. The int64 is its word.
  unfoldable pub addr_2_int : Bytes → Outcome ℕ
  addr_2_int addr = do
    index ← or_panic (index_of b':' addr)
    ip ← slice addr 0 index
    port ← slice addr (index + 1) (length addr)
    let data_word = number_of (parse_ip_to4 parse_ipv6_to4 ip ip) * 2 ^ 16 % 2 ^ 64
    ok (bit_or data_word (atoi port).0)

  unfoldable pub ip_str_2_uint32 : Bytes → ℕ
  ip_str_2_uint32 ip = number_of (parse_ip_to4 parse_ipv6_to4 ip ip) % 2 ^ 32
