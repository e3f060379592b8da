-- ===== src/Utils/Address/Quads.antt =====
-- Addresses of four bytes and a port, as text and as a number.
use mqtt_server_go.Prelude.{ℕ, ◌+◌, ◌*◌, ◌%◌, ◌^◌, ◌<◌, ◌≡◌, arith, Bytes, ◌∷◌, ◌++◌}
use mqtt_server_go.Strconv.{itoa}

-- Four bytes
pub record Quad : Type 0 where
  pub a : ℕ
  pub b : ℕ
  pub c : ℕ
  pub d : ℕ
  pub a_fits : a < 256
  pub b_fits : b < 256
  pub c_fits : c < 256
  pub d_fits : d < 256

-- a.b.c.d
abbrev pub dotted : Quad → Bytes
dotted q = itoa q.a ++ b'.' ∷ (itoa q.b ++ b'.' ∷ (itoa q.c ++ b'.' ∷ itoa q.d))

abbrev pub value_of : Quad → ℕ
value_of q = ((q.a * 256 + q.b) * 256 + q.c) * 256 + q.d

-- a.b.c.d:port
abbrev pub remote_addr : Quad → ℕ → Bytes
remote_addr q port = dotted q ++ b':' ∷ itoa port

pub shifted :
    (q : Quad)
    → ((((0 + q.a) * 256 + q.b) * 256 + q.c) * 256 + q.d) * 2 ^ 16 % 2 ^ 64 ≡ value_of q * 2 ^ 16
shifted q = omega (arith, q.a_fits, q.b_fits, q.c_fits, q.d_fits)

last_byte : (x y x' y' : ℕ) → y < 256 → y' < 256 → x * 256 + y ≡ x' * 256 + y' → (x ≡ x') × (y ≡ y')
last_byte x y x' y' h h' e = (omega arith, omega arith)

last_word :
    (x y x' y' : ℕ)
    → y < 2 ^ 16
    → y' < 2 ^ 16
    → x * 2 ^ 16 + y ≡ x' * 2 ^ 16 + y'
    → (x ≡ x') × (y ≡ y')
last_word x y x' y' h h' e = (omega arith, omega arith)

-- A number says which bytes and which port it was made of.
pub digits_of :
    (q q' : Quad) (port port' : ℕ)
    → port < 2 ^ 16
    → port' < 2 ^ 16
    → value_of q * 2 ^ 16 + port ≡ value_of q' * 2 ^ 16 + port'
    → (q.a ≡ q'.a) × (q.b ≡ q'.b) × (q.c ≡ q'.c) × (q.d ≡ q'.d) × (port ≡ port')
digits_of q q' port port' fits fits' e =
    let (value, same_port) = last_word (value_of q) port (value_of q') port' fits fits' e in
    let (abc, d) = last_byte _ q.d _ q'.d q.d_fits q'.d_fits value in
    let (ab, c) = last_byte _ q.c _ q'.c q.c_fits q'.c_fits abc in
    let (a, b) = last_byte q.a q.b q'.a q'.b q.b_fits q'.b_fits ab in (a, b, c, d, same_port)
