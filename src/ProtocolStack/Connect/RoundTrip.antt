-- ===== src/ProtocolStack/Connect/RoundTrip.antt =====
-- Reading CONNECT: every field comes back.
use mqtt_server_go.Prelude.{
  ℕ, pos, ◌+◌, ◌<◌, ◌≡◌, refl, arith, [], ◌∷◌, ◌++◌, Bytes, length, ok, slice, slice_front,
  slice_advance, index_at, index_at-slice,
}
use mqtt_server_go.ProtocolStack.Packet.{
  word_bytes, packet_type, prefix_length, copy_loop, mqtt_packet_read_protocol,
}
use mqtt_server_go.ProtocolStack.Packet.RemainingLength.{
  length_field, decode-length_field, max_length,
}
use mqtt_server_go.ProtocolStack.Packet.Words.{read_word-slice}
use mqtt_server_go.ProtocolStack.Connect.{
  MqttPacketConnectData, deserialize_connect_fields, mqtt_deserialize_connect,
}
use mqtt_server_go.ProtocolStack.Connect.Fields.{
  str, Request, will_bytes, login_bytes, request_flags, WillFits, LoginFits, will_of, login_of,
  read_field_lem, read_wills_lem, flags_lem, read_login_lem,
}

-- The flags, the interval, and the strings
abbrev behind_version : Request → Bytes
behind_version r =
    request_flags r.will r.login r.clean
    ∷ (word_bytes r.interval ++ (str r.client_id ++ (will_bytes r.will ++ login_bytes r.login)))

-- The name "MQTT" behind its length, the version, and what follows
unfoldable pub request_body : Request → Bytes
request_body r = 0 ∷ 4 ∷ 77 ∷ 81 ∷ 84 ∷ 84 ∷ r.version ∷ behind_version r

unfoldable pub request_bytes : Request → Bytes
request_bytes r = 0x10 ∷ (length_field (length (request_body r)) ++ request_body r)

pub record Fits (r : Request) : Type 0 where
  pub clean_fits : r.clean < 2
  pub interval_fits : r.interval < 65536
  pub client_id_fits : length r.client_id < 256
  pub will_fits : WillFits r.will
  pub login_fits : LoginFits r.login
  pub body_fits : length (request_body r) < max_length

protocol_lem : (r : Request) → mqtt_packet_read_protocol (request_body r) ≡ ok (7, r.version)
unfolding mqtt_packet_read_protocol prefix_length copy_loop index_at request_body
protocol_lem r = refl

-- The fields that the reader ends with
abbrev pub fields_of : Request → MqttPacketConnectData → MqttPacketConnectData
fields_of r old = record {
  version = r.version;
  client_id = r.client_id;
  keep_alive_interval = r.interval;
  cleansession = r.clean;
  wills = will_of r.will old.wills;
  username = (login_of r.login (old.username, old.password)).0;
  password = (login_of r.login (old.username, old.password)).1;
}

-- For a CONNECT packet whose strings are below 256 bytes and whose other fields fit their bits, with or
-- without a will and a login: the reader accepts it and ends with exactly the fields that it says,
-- whatever follows it in the buffer, and keeps its own will and login where the packet has none.
pub deserialize_connect-bytes :
    (r : Request) (old : MqttPacketConnectData) (junk : Bytes)
    → Fits r
    → mqtt_deserialize_connect old (request_bytes r ++ junk) (length (request_bytes r))
      ≡ ok (pos 0, fields_of r old)
unfolding mqtt_deserialize_connect deserialize_connect_fields packet_type
deserialize_connect-bytes r old junk f =
    let (client_id, behind_id) =
      read_field_lem buf len (start + 7 + 3) r.client_id _ f.client_id_fits at_id in
    let (index, wills, behind_will) =
      read_wills_lem buf len r.will r.login r.clean _ old.wills (login_bytes r.login) f.clean_fits
        f.will_fits behind_id in
    let (clean, login_bit) = flags_lem r.will r.login r.clean f.clean_fits f.will_fits in
    let login =
      read_login_lem buf len (request_flags r.will r.login r.clean) index r.login
        (old.username, old.password) f.login_fits login_bit behind_will in
    rw
      (
        index_at-slice buf 0 len whole,
        behind_header,
        decode-length_field (length (request_body r)) 0 (request_body r) f.body_fits,
        behind_length,
        protocol_lem r,
        index_at-slice buf (start + 7) len at_flag,
        read_word-slice buf (start + 7 + 1) len r.interval _ f.interval_fits at_interval,
        client_id,
        wills,
        login,
        clean,
      )
      refl
  where
    buf : Bytes
    buf = request_bytes r ++ junk

    len : ℕ
    len = length (request_bytes r)

    start : ℕ
    start = 1 + length (length_field (length (request_body r)))

    whole : slice buf 0 len ≡ ok (0x10 ∷ (length_field (length (request_body r)) ++ request_body r))
    whole = unfold request_bytes in slice_front (request_bytes r) junk

    behind_header : slice buf 1 len ≡ ok (length_field (length (request_body r)) ++ request_body r)
    behind_header = slice_advance buf 0 len (0x10 ∷ []) _ 1 whole refl

    behind_length : slice buf start len ≡ ok (request_body r)
    behind_length =
        slice_advance buf 1 len (length_field (length (request_body r))) _ start behind_header refl

    at_flag : slice buf (start + 7) len ≡ ok (behind_version r)
    at_flag =
        unfold request_body in
        slice_advance buf start len (0 ∷ 4 ∷ 77 ∷ 81 ∷ 84 ∷ 84 ∷ r.version ∷ []) _ (start + 7)
          behind_length refl

    at_interval :
        slice buf (start + 7 + 1) len
        ≡ ok (
            word_bytes r.interval
            ++ (str r.client_id ++ (will_bytes r.will ++ login_bytes r.login)))
    at_interval =
        slice_advance buf (start + 7) len (request_flags r.will r.login r.clean ∷ []) _ _ at_flag
          refl

    at_id :
        slice buf (start + 7 + 3) len
        ≡ ok (str r.client_id ++ (will_bytes r.will ++ login_bytes r.login))
    at_id =
        slice_advance buf (start + 7 + 1) len (word_bytes r.interval) _ _ at_interval
          (unfold word_bytes in omega arith)
