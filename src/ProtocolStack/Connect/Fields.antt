-- ===== src/ProtocolStack/Connect/Fields.antt =====
-- The bytes of CONNECT, as the protocol lays them out, and what is read from them.
use mqtt_server_go.Prelude.{
  ℕ, ◌+◌, ◌*◌, ◌/◌, ◌%◌, ◌<◌, ◌≡◌, refl, ap, sym, ◌∙◌, arith, true, Bool, ◌&&◌, [], ◌++◌,
  append-nil, append_assoc, bit_and, shr, Bytes, length, Option, none, some, ok, slice,
  slice_advance, ◌==◌, all_below, all_below_sound,
}
use mqtt_server_go.ProtocolStack.Packet.{word_bytes}
use mqtt_server_go.ProtocolStack.Packet.Strings.{read_string_lem}
use mqtt_server_go.ProtocolStack.Connect.{MqttPacketWillOptions, read_field, read_wills, read_login}

-- A string behind its length
unfoldable pub str : Bytes → Bytes
str xs = word_bytes (length xs) ++ xs

-- The reader moves behind a string below 256 bytes.
pub read_field_lem :
    (buf : Bytes) (len index : ℕ) (xs rest : Bytes)
    → length xs < 256
    → slice buf index len ≡ ok (str xs ++ rest)
    → (read_field buf len index ≡ ok (index + (length xs + 2), xs))
      × (slice buf (index + (length xs + 2)) len ≡ ok rest)
unfolding read_field str word_bytes
read_field_lem buf len index xs rest short e = (
  rw (e, read_string_lem (length xs / 256 % 256) (length xs % 256 % 256) xs rest (omega arith))
      refl,
  slice_advance buf index len (str xs) rest _ e (omega arith),
)

-- The flags: a clear session, the will's parts if there is one, and a login.
abbrev pub flag_byte : ℕ → ℕ → ℕ → ℕ → ℕ → ℕ
flag_byte clean will qos retained login =
    2 * clean + 4 * will + 8 * qos + 32 * retained + 192 * login

agrees : ℕ → ℕ → ℕ → ℕ → ℕ → Bool
agrees clean will qos retained login =
    let f = flag_byte clean will qos retained login in
    (shr (bit_and f 0x02) 1 == clean)
    && (bit_and f 0x04 == 4 * will)
    && (shr (bit_and f 0x18) 3 == qos)
    && (shr (bit_and f 0x20) 5 == retained)
    && (bit_and f 0x80 == 128 * login)

table : all_below 64 (λ n. agrees (n / 32) (n / 16 % 2) (n / 4 % 4) (n / 2 % 2) (n % 2)) ≡ true
unfolding all_below agrees
table = refl

module _ (clean will qos retained login : ℕ) (c : clean < 2) (w : will < 2) (q : qos < 4)
    (r : retained < 2) (l : login < 2) where
  agrees_at : agrees clean will qos retained login ≡ true
  agrees_at =
      let n = 32 * clean + 16 * will + 4 * qos + 2 * retained + login in
      let clean_part : n / 32 ≡ clean = omega arith in
      let will_part : n / 16 % 2 ≡ will = omega arith in
      let qos_part : n / 4 % 4 ≡ qos = omega arith in
      let retained_part : n / 2 % 2 ≡ retained = omega arith in
      let login_part : n % 2 ≡ login = omega arith in
      rw (clean_part, will_part, qos_part, retained_part, login_part) at
        (all_below_sound 64 _ n table (omega arith))

  pub flag_fields :
      (shr (bit_and (flag_byte clean will qos retained login) 0x02) 1 ≡ clean)
      × (bit_and (flag_byte clean will qos retained login) 0x04 ≡ 4 * will)
      × (shr (bit_and (flag_byte clean will qos retained login) 0x18) 3 ≡ qos)
      × (shr (bit_and (flag_byte clean will qos retained login) 0x20) 5 ≡ retained)
      × (bit_and (flag_byte clean will qos retained login) 0x80 ≡ 128 * login)
  unfolding agrees
  flag_fields = ground (arith, agrees_at)

-- What a CONNECT says: the fields that every one has, and a will and a login, if there are any.
pub record Request : Type 0 where
  pub version : ℕ
  pub clean : ℕ
  pub interval : ℕ
  pub client_id : Bytes
  pub will : Option MqttPacketWillOptions
  pub login : Option (Bytes × Bytes)

unfoldable pub will_bytes : Option MqttPacketWillOptions → Bytes
will_bytes none = []
will_bytes (some w) = str w.topic ++ str w.message

unfoldable pub login_bytes : Option (Bytes × Bytes) → Bytes
login_bytes none = []
login_bytes (some (username, password)) = str username ++ str password

abbrev pub request_flags : Option MqttPacketWillOptions → Option (Bytes × Bytes) → ℕ → ℕ
request_flags none none clean = flag_byte clean 0 0 0 0
request_flags none (some l) clean = flag_byte clean 0 0 0 1
request_flags (some w) none clean = flag_byte clean 1 w.qos w.retained 0
request_flags (some w) (some l) clean = flag_byte clean 1 w.qos w.retained 1

abbrev pub WillFits : Option MqttPacketWillOptions → Type 0
WillFits none = Unit {0}
WillFits (some w) =
    (length w.topic < 256) × (length w.message < 256) × (w.qos < 4) × (w.retained < 2)

abbrev pub LoginFits : Option (Bytes × Bytes) → Type 0
LoginFits none = Unit {0}
LoginFits (some (username, password)) = (length username < 256) × (length password < 256)

abbrev pub will_of : Option MqttPacketWillOptions → MqttPacketWillOptions → MqttPacketWillOptions
will_of none old = old
will_of (some w) old = w

module _ (buf : Bytes) (len : ℕ) where
  will_there :
      (w : MqttPacketWillOptions) (flag index : ℕ) (old : MqttPacketWillOptions) (rest : Bytes)
      → length w.topic < 256
      → length w.message < 256
      → (bit_and flag 0x04 ≡ 4)
        × (shr (bit_and flag 0x18) 3 ≡ w.qos)
        × (shr (bit_and flag 0x20) 5 ≡ w.retained)
      → slice buf index len ≡ ok ((str w.topic ++ str w.message) ++ rest)
      → (index' : ℕ) × (read_wills buf len flag index old ≡ ok (index', w))
        × (slice buf index' len ≡ ok rest)
  unfolding read_wills
  will_there w flag index old rest t m (set_bit, qos, retained) e =
      let (first, behind) =
        read_field_lem buf len index w.topic (str w.message ++ rest) t
          (e ∙ ap ok (append_assoc (str w.topic) (str w.message) rest)) in
      let next = index + (length w.topic + 2) in
      let (second, left) = read_field_lem buf len next w.message rest m behind in
      (next + (length w.message + 2), rw (set_bit, first, second, qos, retained) refl, left)

  pub read_wills_lem :
      (will : Option MqttPacketWillOptions) (login : Option (Bytes × Bytes)) (clean index : ℕ)
      (old : MqttPacketWillOptions) (rest : Bytes)
      → clean < 2
      → WillFits will
      → slice buf index len ≡ ok (will_bytes will ++ rest)
      → (index' : ℕ) × (read_wills buf len (request_flags will login clean) index old
          ≡ ok (index', will_of will old))
        × (slice buf index' len ≡ ok rest)
  unfolding read_wills will_bytes
  read_wills_lem none none clean index old rest c f e = (
    index,
    rw ((flag_fields clean 0 0 0 0 c (omega arith) (omega arith) (omega arith) (omega arith)).1)
        refl,
    e,
  )
  read_wills_lem none (some l) clean index old rest c f e = (
    index,
    rw ((flag_fields clean 0 0 0 1 c (omega arith) (omega arith) (omega arith) (omega arith)).1)
        refl,
    e,
  )
  read_wills_lem (some w) none clean index old rest c (t, m, q, r) e =
      will_there w (request_flags (some w) none clean) index old rest t m
        (let (_, set_bit, qos, retained, _) =
            flag_fields clean 1 w.qos w.retained 0 c (omega arith) q r (omega arith) in
          (set_bit, qos, retained))
        e
  read_wills_lem (some w) (some l) clean index old rest c (t, m, q, r) e =
      will_there w (request_flags (some w) (some l) clean) index old rest t m
        (let (_, set_bit, qos, retained, _) =
            flag_fields clean 1 w.qos w.retained 1 c (omega arith) q r (omega arith) in
          (set_bit, qos, retained))
        e

-- The login that the reader ends with: it keeps its own where the packet has none.
abbrev pub login_of : Option (Bytes × Bytes) → Bytes × Bytes → Bytes × Bytes
login_of none old = old
login_of (some l) old = l

abbrev has : Option (Bytes × Bytes) → ℕ
has none = 0
has (some l) = 1

-- The flags that do not belong to the will
pub flags_lem :
    (will : Option MqttPacketWillOptions) (login : Option (Bytes × Bytes)) (clean : ℕ)
    → clean < 2
    → WillFits will
    → (shr (bit_and (request_flags will login clean) 0x02) 1 ≡ clean)
      × (bit_and (request_flags will login clean) 0x80 ≡ 128 * has login)
flags_lem none none clean c f =
    let (cleared, _, _, _, login) =
      flag_fields clean 0 0 0 0 c (omega arith) (omega arith) (omega arith) (omega arith) in
    (cleared, login)
flags_lem none (some l) clean c f =
    let (cleared, _, _, _, login) =
      flag_fields clean 0 0 0 1 c (omega arith) (omega arith) (omega arith) (omega arith) in
    (cleared, login)
flags_lem (some w) none clean c (t, m, q, r) =
    let (cleared, _, _, _, login) =
      flag_fields clean 1 w.qos w.retained 0 c (omega arith) q r (omega arith) in
    (cleared, login)
flags_lem (some w) (some l) clean c (t, m, q, r) =
    let (cleared, _, _, _, login) =
      flag_fields clean 1 w.qos w.retained 1 c (omega arith) q r (omega arith) in
    (cleared, login)

pub read_login_lem :
    (buf : Bytes) (len flag index : ℕ) (login : Option (Bytes × Bytes)) (old : Bytes × Bytes)
    → LoginFits login
    → bit_and flag 0x80 ≡ 128 * has login
    → slice buf index len ≡ ok (login_bytes login)
    → read_login buf len flag index old ≡ ok (login_of login old)
unfolding read_login login_bytes
read_login_lem buf len flag index none old f bit e = rw bit refl
read_login_lem buf len flag index (some (username, password)) old (u, p) bit e =
    let (first, behind) = read_field_lem buf len index username (str password) u e in
    let next = index + (length username + 2) in
    let (second, left) =
      read_field_lem buf len next password [] p
        (behind ∙ ap ok (sym (append-nil (str password)))) in
    rw (bit, first, second) refl
