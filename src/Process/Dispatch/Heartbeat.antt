-- ===== src/Process/Dispatch/Heartbeat.antt =====
-- The ticker's case: the timeout is unsigned, so the test for one below 0 never holds.
use mqtt_server_go.Prelude.{
  ℕ, zero, suc, ◌+◌, ◌-◌, ◌%◌, ◌^◌, ◌<◌, ◌≡◌, refl, ap, sym, ◌∙◌, le→ltb, arith, List, [], ◌∷◌, ok,
  All, get_elem?, set, length, length-set, get_elem?-lt, some,
}
use mqtt_server_go.Process.Server.{MqttClientInfo, Server, load, store}
use mqtt_server_go.Process.Deliver.{for_clients}
use mqtt_server_go.Process.Dispatch.{tick_client, tick}

-- A client's record with another timeout, and a record without its timeout
abbrev with_timeout : MqttClientInfo → ℕ → MqttClientInfo
with_timeout c t = record c { heart_timeout = t }

unfoldable pub no_timeouts : List MqttClientInfo → List MqttClientInfo
no_timeouts [] = []
no_timeouts (c ∷ h) = with_timeout c 0 ∷ no_timeouts h

no_timeouts-set :
    (h : List MqttClientInfo) (a t : ℕ) {c : MqttClientInfo}
    → get_elem? h a ≡ some c
    → no_timeouts (set h a (with_timeout c t)) ≡ no_timeouts h
unfolding no_timeouts
no_timeouts-set [] a t e = absurd (cc)
no_timeouts-set (x ∷ h) zero t {c} e =
    let same : x ≡ c = cc in
    ap (λ (d : MqttClientInfo). with_timeout d 0 ∷ no_timeouts h) (sym same)
no_timeouts-set (x ∷ h) (suc a) t e =
    ap (λ (r : List MqttClientInfo). with_timeout x 0 ∷ r) (no_timeouts-set h a t e)

abbrev one_less : ℕ → ℕ
one_less t = (t + (2 ^ 16 - 1)) % 2 ^ 16

tick_client_lem :
    (a : ℕ) (s : Server) {c : MqttClientInfo}
    → get_elem? s.heap a ≡ some c
    → tick_client a tt s
      ≡ ok (tt, record s { heap = set s.heap a (with_timeout c (one_less c.heart_timeout)) })
unfolding tick_client load store
tick_client_lem a s {c} e = rw (e, le→ltb (one_less c.heart_timeout) 0 (omega arith))

All-map : {P Q : ℕ → Type 0} (xs : List ℕ) → ((x : ℕ) → P x → Q x) → All P xs → All Q xs
All-map [] k h = h
All-map (x ∷ xs) k (h, hs) = (k x h, All-map xs k hs)

for_ticks :
    (visit : List ℕ) (s : Server)
    → All (λ a. a < length s.heap) visit
    → (h : List MqttClientInfo) × (for_clients tick_client visit tt s
        ≡ ok (tt, record s { heap = h }))
      × (no_timeouts h ≡ no_timeouts s.heap)
unfolding for_clients
for_ticks [] s v = (s.heap, refl, refl)
for_ticks (a ∷ visit) s (lt, v) =
    let (c, e) = get_elem?-lt s.heap a lt in
    let t = one_less c.heart_timeout in
    let h = set s.heap a (with_timeout c t) in
    let v' : All (λ b. b < length h) visit =
      All-map visit (λ b k. rw (length-set s.heap a (with_timeout c t)) k) v in
    let (h', run, same) = for_ticks visit (record s { heap = h }) v' in
    (h', rw (tick_client_lem a s e) run, same ∙ no_timeouts-set s.heap a t e)

-- For every client that the ticker visits, when the addresses are those of records: the ticker
-- closes no connection and sends nothing, and of the clients' records it changes the timeouts alone,
-- whatever the timeouts are.
pub tick_closes_none :
    (visit : List ℕ) (s : Server)
    → All (λ a. a < length s.heap) visit
    → (h : List MqttClientInfo) × (tick visit s ≡ ok (tt, record s { heap = h }))
      × (no_timeouts h ≡ no_timeouts s.heap)
unfolding tick
tick_closes_none visit s v = for_ticks visit s v
