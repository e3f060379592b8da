-- ===== src/Process/Session/Takeover.antt =====
-- A client that logs in again while its old connection is still open: both routines hold the one
-- record, and the end of the old one marks it.
use mqtt_server_go.Prelude.{
  ℕ, ◌≡◌, refl, false, Bytes, lookup, bytes_eq, All, get_elem?, set, get_elem?-set_self, some, ok,
  ◌==◌, [], ◌∷◌, ◌++◌,
}
use mqtt_server_go.ProtocolStack.Connect.{MqttPacketConnectData}
use mqtt_server_go.ProtocolStack.Publish.Layout.{Fits}
use mqtt_server_go.Process.Server.{MqttClientInfo, Server, load, store, emit, close, ◌>>=◌}
use mqtt_server_go.Process.Session.{login, client_exit}
use mqtt_server_go.Process.Session.Login.{resumed, resumed_lem, answers, login_delivers}

-- The record behind a login that another connection ended afterwards
abbrev pub marked : ℕ → MqttPacketConnectData → MqttClientInfo → MqttClientInfo
marked conn d c = record (resumed conn d c) { login_success = 0 }

exit_marks :
    (old a : ℕ) (s : Server) {c : MqttClientInfo}
    → get_elem? s.heap a ≡ some c
    → (c.clear_session == 1) ≡ false
    → client_exit old (some a) s
      ≡ ok (
        tt,
        record s {
          heap = set s.heap a (record c { login_success = 0 });
          trace = s.trace ++ close old ∷ [];
        },
      )
unfolding client_exit load store emit
exit_marks old a s {c} there e = rw (there, e) refl

-- For a client that has a record, kept messages that fit their packets, and a login that asks for no
-- clear session: when the login on the new connection is done and the routine of the old connection
-- ends after it, the client's record stands on the new connection and is marked as logged out, so
-- that messages for the client are kept, or dropped, while it is connected.
pub takeover :
    (conn old : ℕ) (d : MqttPacketConnectData) (connack : Bytes) (s : Server) {a : ℕ}
    {c : MqttClientInfo}
    → lookup d.client_id s.clients ≡ some a
    → get_elem? s.heap a ≡ some c
    → All Fits c.offline_msg
    → (d.cleansession == 1) ≡ false
    → (s' : Server) × ((login conn d connack >>= λ self. client_exit old self) s ≡ ok (tt, s'))
      × (get_elem? s'.heap a ≡ some (marked conn d c))
      × ((marked conn d c).conn ≡ conn)
takeover conn old d connack s {a} {c} found there fits e =
    let r = resumed conn d c in
    let h = set s.heap a r in
    let there1 : get_elem? h a ≡ some r = get_elem?-set_self s.heap a c r there in
    let clear : (r.clear_session == 1) ≡ false = rw ((resumed_lem conn d c).1) e in
    let out = s.trace ++ answers conn connack a c.offline_msg in
    (
      record s { heap = set h a (marked conn d c); trace = out ++ close old ∷ [] },
      rw
          (
            login_delivers conn d connack s found there fits,
            exit_marks old a (record s { heap = h; trace = out }) there1 clear,
          )
          refl,
      get_elem?-set_self h a r (marked conn d c) there1,
      (resumed_lem conn d c).0,
    )
