-- ===== src/Process/Invariant/Session.antt =====
-- The routine of a connection keeps the invariant.
use mqtt_server_go.Prelude.{
  ℕ, zero, suc, ◌≤◌, ◌≡◌, refl, sym, ap, subst, ◌∙◌, arith, inl, inr, ◌⊎◌, List, [], ◌∷◌, ◌++◌,
  Bytes, lookup, bytes_eq, Option, none, some, length, get_elem?, ◌==◌, or_panic,
}
use mqtt_server_go.ProtocolStack.Connect.{
  MqttPacketConnectData, zero_connect, mqtt_deserialize_connect, mqtt_seserialize_connack,
}
use mqtt_server_go.ProtocolStack.Ping.{mqtt_deserialize_ping, mqtt_seserialize_pong}
use mqtt_server_go.Process.Server.{
  MqttClientInfo, Server, close, write, pure, find_client, if_found,
}
use mqtt_server_go.Process.Deliver.Topics.{Distinct}
use mqtt_server_go.Process.Session.{
  new_client, allocate, session_of, logged_in, login, process_connect, process_ping, client_exit,
}
use mqtt_server_go.Process.Heaps.{
  Pred, Leaves, Triple, Keeps, Triple-bind, Triple-load, Triple-store, Triple-if, Keeps-pure,
  Keeps-lift, Keeps-emit,
}
use mqtt_server_go.Process.Invariant.{IsClient, Valid, set-Valid, store-Valid, forget}
use mqtt_server_go.Process.Invariant.Dispatch.{send_offline-Valid}

-- The record at the address is that of no client but `id`.
abbrev Owns : Bytes → ℕ → Pred
Owns id a h m = Valid h m × ((k : Bytes) → lookup k m ≡ some a → id ≡ k)

get_elem?-left :
    {A : Type 0} (xs ys : List A) (i : ℕ) {x : A}
    → get_elem? xs i ≡ some x
    → get_elem? (xs ++ ys) i ≡ some x
get_elem?-left [] ys i e = cc
get_elem?-left (y ∷ xs) ys zero e = e
get_elem?-left (y ∷ xs) ys (suc i) e = get_elem?-left xs ys i e

get_elem?-snoc :
    {A : Type 0} (xs : List A) (y : A) (i : ℕ) {x : A}
    → get_elem? (xs ++ y ∷ []) i ≡ some x
    → (get_elem? xs i ≡ some x) ⊎ (y ≡ x)
get_elem?-snoc [] y zero e = inr (cc)
get_elem?-snoc [] y (suc i) e = inl e
get_elem?-snoc (z ∷ xs) y zero e = inl e
get_elem?-snoc (z ∷ xs) y (suc i) e = get_elem?-snoc xs y i e

no_elem : {A : Type 0} (xs : List A) {x : A} → get_elem? xs (length xs) ≡ some x → ⊥
no_elem [] e = cc
no_elem (y ∷ xs) e = no_elem xs e

new_client-IsClient : IsClient new_client
unfolding lookup Distinct
new_client-IsClient = record {
  topics = tt;
  login = omega arith;
  statuses = λ id st e. absurd (cc);
  cached = λ id p e. absurd (cc);
  waiting = tt;
}

allocate-Owns : (id : Bytes) → Triple Valid allocate (Owns id)
unfolding allocate
allocate-Owns id = record {
  at = λ s v. (
    record {
      keys = v.keys;
      entries = λ k a found.
          let (c, there, name) = v.entries k a found in
          (c, get_elem?-left s.heap (new_client ∷ []) a there, name);
      records = λ a c there. elim (get_elem?-snoc s.heap new_client a there) [
        | inl old ↦ v.records a c old
        | inr new ↦ subst IsClient new new_client-IsClient
      ];
    },
    λ k found. let (c, there, name) = v.entries k _ found in absurd (no_elem s.heap there),
  );
}

session_of-Owns : (id : Bytes) → Triple Valid (session_of id) (Owns id)
unfolding session_of find_client
session_of-Owns id = record { at = λ s v. of s v (lookup id s.clients) refl }
  where
    of :
        (s : Server)
        → Valid s.heap s.clients
        → (o : Option ℕ) → lookup id s.clients ≡ o
        → Leaves (Owns id) (if_found o allocate pure s)
    of s v none e = (allocate-Owns id).at s v
    of s v (some a) e = (
      v,
      λ k found.
          let (c, there, name) = v.entries id a e in
          let (d, there', name') = v.entries k a found in
          let same : c ≡ d = cc in sym name ∙ ap (λ (e : MqttClientInfo). e.client_id) same ∙ name',
    )

logged_in-IsClient :
    (conn : ℕ) (d : MqttPacketConnectData) (c : MqttClientInfo)
    → IsClient c
    → IsClient (logged_in conn d c)
logged_in-IsClient conn d c v = record {
  topics = v.topics;
  login = omega arith;
  statuses = v.statuses;
  cached = v.cached;
  waiting = v.waiting;
}

with_login :
    (c : MqttClientInfo) (n : ℕ) → n ≤ 1 → IsClient c → IsClient (record c { login_success = n })
with_login c n h v = record {
  topics = v.topics;
  login = h;
  statuses = v.statuses;
  cached = v.cached;
  waiting = v.waiting;
}

with_none_waiting : (c : MqttClientInfo) → IsClient c → IsClient (record c { offline_msg = [] })
with_none_waiting c v = record {
  topics = v.topics;
  login = v.login;
  statuses = v.statuses;
  cached = v.cached;
  waiting = tt;
}

login-Valid :
    (conn : ℕ) (d : MqttPacketConnectData) (write_buf : Bytes)
    → Keeps Valid (login conn d write_buf)
unfolding login
login-Valid conn d write_buf = Triple-bind _ _ (session_of-Owns d.client_id) λ a.
    Triple-bind _ _ (Triple-load a) λ c.
      Triple-bind _ _
        (Triple-store {Q = Valid} a (logged_in conn d c) (λ h m ((v, owner), at).
          set-Valid h m a c (logged_in conn d c) v at owner
            (logged_in-IsClient conn d c (v.records a c at))))
        λ _. Triple-bind _ _ (Keeps-emit _) λ _.
          Triple-bind _ _ (send_offline-Valid conn a c.offline_msg) λ _.
            Triple-bind _ _ (Triple-load a) λ c.
              Triple-bind _ _ (store-Valid a c _ refl (with_none_waiting c))
                λ _. Triple-bind _ _ (Keeps-emit _) λ _. Keeps-pure _

pub process_connect-Valid :
    (conn : ℕ) (self : Option ℕ) (read_buf : Bytes) (num : ℕ)
    → Keeps Valid (process_connect conn self read_buf num)
unfolding process_connect
process_connect-Valid conn self read_buf num =
    Triple-bind _ _ (Keeps-lift (mqtt_deserialize_connect zero_connect read_buf num)) λ r.
      Triple-bind _ _ (Keeps-lift (mqtt_seserialize_connack r.1 [])) λ w.
        Triple-if (w.1 == 0) _ _ (λ _. login-Valid conn r.1 w.2)
          (λ _.
            Triple-bind _ _ (Keeps-emit (write conn w.2))
              λ _. Triple-bind _ _ (Keeps-emit (close conn)) λ _. Keeps-pure self)

with_ping : (c : MqttClientInfo) → IsClient c → IsClient (record c { heart_timeout = c.pingperiod })
with_ping c v = record {
  topics = v.topics;
  login = v.login;
  statuses = v.statuses;
  cached = v.cached;
  waiting = v.waiting;
}

pub process_ping-Valid :
    (conn : ℕ) (self : Option ℕ) (read_buf : Bytes) → Keeps Valid (process_ping conn self read_buf)
unfolding process_ping
process_ping-Valid conn self read_buf = Triple-bind _ _ (Keeps-lift (or_panic self)) λ a.
    Triple-bind _ _ (Triple-load a) λ c. Triple-bind _ _ (store-Valid a c _ refl (with_ping c)) λ _.
      Triple-bind _ _ (Keeps-lift (mqtt_deserialize_ping read_buf)) λ ret.
        Triple-bind _ _ (Keeps-lift (mqtt_seserialize_pong [])) λ w. Keeps-emit (write conn w.1)

-- The exit of the routine
pub client_exit-Valid : (conn : ℕ) (self : Option ℕ) → Keeps Valid (client_exit conn self)
unfolding client_exit
client_exit-Valid conn self = Triple-bind _ _ (Keeps-lift _) λ a.
    Triple-bind _ _ (Triple-load a) λ c.
      Triple-bind _ _
        (Triple-if (c.clear_session == 1) _ _ (λ _. forget (Keeps-emit _))
          (λ _. store-Valid a c _ refl (with_login c 0 (omega arith))))
        λ _. Keeps-emit _
