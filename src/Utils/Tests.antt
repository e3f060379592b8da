-- ===== src/Utils/Tests.antt =====
-- Names and addresses at concrete values.
use mqtt_server_go.Prelude.{
  ◌+◌, ◌*◌, ◌^◌, ◌≡◌, refl, arith, [], ◌∷◌, Bytes, codes, Option, none, ok, index_at, lookup,
  insert, bytes_eq,
}
use mqtt_server_go.Strconv.{itoa, digits}
use mqtt_server_go.Process.Samples.{rand}
use mqtt_server_go.Utils.Names.{fill_id, general_routin_id}
use mqtt_server_go.Utils.Address.{addr_2_int}
use mqtt_server_go.Utils.Address.Numbers.{addr_2_int_lem}
use mqtt_server_go.Utils.Address.Quads.{Quad, value_of, remote_addr}

abbrev no_ipv6 : Bytes → Option Bytes
no_ipv6 s = none

abbrev local : Quad
local = record {
  a = 127;
  b = 0;
  c = 0;
  d = 1;
  a_fits = omega arith;
  b_fits = omega arith;
  c_fits = omega arith;
  d_fits = omega arith;
}

local_text : remote_addr local 1883 ≡ codes "127.0.0.1:1883"
unfolding itoa digits
local_text = refl

addr_2_int_lem_example :
    addr_2_int no_ipv6 (remote_addr local 1883) ≡ ok (value_of local * 2 ^ 16 + 1883)
addr_2_int_lem_example = addr_2_int_lem no_ipv6 local 1883 (omega arith)

-- With "01" in use, the second draw of two characters gives a name.
second_name :
    general_routin_id rand 2 2 ((codes "01", 0) ∷ []) 0
    ≡ ok (codes "23", (codes "01", 0) ∷ (codes "23", 0) ∷ [], 4)
unfolding general_routin_id fill_id index_at lookup insert
second_name = refl
