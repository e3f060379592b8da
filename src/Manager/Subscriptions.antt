-- ===== src/Manager/Subscriptions.antt =====
-- `GetClientSubList` of manager/http_clientsub_handle.go.
use mqtt_server_go.Prelude.{
  ℕ, ◌+◌, ◌%◌, ◌^◌, ◌<◌, ◌≡◌, refl, ap, ◌∙◌, List, [], ◌∷◌, ◌++◌, append-nil, append_assoc, map,
  Bytes, length, take, drop, get_elem?, Map, bytes_eq, lookup, Bool-cases, inl, inr, if◌then◌else◌,
  Option, none, some, ok,
}
use mqtt_server_go.Process.Server.{
  MqttClientInfo, Server, M, ◌>>=◌, pure, load, find_client, if_found,
}
use mqtt_server_go.Manager.Window.{in_window, window, window_lem}

-- `SubInfo` of this package
pub record SubInfo : Type 0 where
  pub topic : Bytes
  pub qos : ℕ

abbrev pub sub_info_of : Bytes × ℕ → SubInfo
sub_info_of (topic, qos) = record { topic = topic; qos = qos }

-- The loop over one client's topics
unfoldable pub sub_loop : ℕ → ℕ → Map Bytes ℕ → ℕ → List SubInfo → List SubInfo
sub_loop start limit [] index infos = infos
sub_loop start limit (entry ∷ entries) index infos =
    sub_loop start limit entries ((index + 1) % 2 ^ 64)
      (if in_window start limit index then infos ++ sub_info_of entry ∷ [] else infos)

-- `visit` puts the topics in the order of this call's `range`. A nil slice is `none`.
module _ (visit : Map Bytes ℕ → Map Bytes ℕ) where
  unfoldable pub get_client_sub_list : Bytes → ℕ → ℕ → M (Option (List SubInfo))
  get_client_sub_list client_id start limit = do
    found ← find_client client_id
    if_found found (pure none)
        (λ a. do client ← load a; pure (some (sub_loop start limit (visit client.sub_info) 0 [])))

sub_loop_lem :
    (start limit : ℕ) (entries : Map Bytes ℕ) (index : ℕ) (infos : List SubInfo)
    → sub_loop start limit entries index infos
      ≡ infos ++ map sub_info_of (window start limit index entries)
unfolding sub_loop
sub_loop_lem start limit [] index infos = rw (append-nil infos) refl
sub_loop_lem start limit (entry ∷ entries) index infos =
    elim (Bool-cases (in_window start limit index)) [
      | inl inside ↦ rw inside (
          sub_loop_lem start limit entries ((index + 1) % 2 ^ 64) _
          ∙ append_assoc infos (sub_info_of entry ∷ []) _)
      | inr out ↦ rw out (sub_loop_lem start limit entries ((index + 1) % 2 ^ 64) infos)
    ]

-- A page of the topics of a client that is in the map, in the order of the visit.
pub get_client_sub_list_lem :
    (visit : Map Bytes ℕ → Map Bytes ℕ) (client_id : Bytes) (start limit a : ℕ)
    (client : MqttClientInfo) (s : Server)
    → lookup client_id s.clients ≡ some a
    → get_elem? s.heap a ≡ some client
    → length (visit client.sub_info) < 2 ^ 63
    → start + limit < 2 ^ 63
    → get_client_sub_list visit client_id start limit s
      ≡ ok (some (map sub_info_of (take limit (drop start (visit client.sub_info)))), s)
unfolding get_client_sub_list find_client load
get_client_sub_list_lem visit client_id start limit a client s found at small fits =
    rw (found, at)
      (ap (λ (r : List SubInfo). ok (some r, s))
        (sub_loop_lem start limit (visit client.sub_info) 0 []
          ∙ ap (map sub_info_of) (window_lem start limit fits (visit client.sub_info) small)))
