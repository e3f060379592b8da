-- ===== src/Manager/Clients.antt =====
-- The lists and counts of manager/http_client*_handle.go. An `int` is its 64-bit word.

pub mod Views
use mqtt_server_go.Prelude.{
  ℕ, ◌+◌, ◌%◌, ◌^◌, List, [], ◌∷◌, ◌++◌, Bytes, length, ◌==◌, if◌then◌else◌, Option,
}
use mqtt_server_go.Manager.Window.{in_window}
use mqtt_server_go.Process.Server.{
  MqttClientInfo, Server, M, ◌>>=◌, pure, load, find_client, if_found,
}

pub record ClientInfo : Type 0 where
  pub client_id : Bytes
  pub username : Bytes
  pub login_success : ℕ
  pub sub_topic_num : ℕ
  pub offline_num : ℕ

-- The record for one client: the number of its topics is set, and then set to `length`.
unfoldable pub client_info_of : ℕ → MqttClientInfo → ClientInfo
client_info_of topic_num client =
    let tmp : ClientInfo = record {
      client_id = client.client_id;
      username = client.username;
      login_success = client.login_success;
      sub_topic_num = length client.sub_info;
      offline_num = length client.offline_msg;
    } in
    record tmp { sub_topic_num = topic_num }

-- The loop over the clients. The list of addresses is the order of this visit.
unfoldable pub info_loop : ℕ → ℕ → List ℕ → ℕ → List ClientInfo → M (List ClientInfo)
info_loop start limit [] index infos = pure infos
info_loop start limit (a ∷ visit) index infos = do
  client ← load a
  info_loop start limit visit ((index + 1) % 2 ^ 64)
      (if in_window start limit index then infos ++ client_info_of 0 client ∷ [] else infos)

unfoldable pub get_client_info_list : List ℕ → ℕ → ℕ → M (List ClientInfo)
get_client_info_list visit start limit = info_loop start limit visit 0 []

unfoldable pub count_loop : List ℕ → ℕ → M ℕ
count_loop [] num = pure num
count_loop (a ∷ visit) num = do
  client ← load a
  count_loop visit (if client.login_success == 1 then num + 1 else num)

unfoldable pub get_on_line_client_num : List ℕ → M ℕ
get_on_line_client_num visit = count_loop visit 0

unfoldable pub get_session_num : M ℕ
get_session_num = λ s. pure (length s.clients) s

-- `GetClientOffLineMsgList`, which gives a number
unfoldable pub get_client_off_line_msg_list : Bytes → M ℕ
get_client_off_line_msg_list client_id = do
  found ← find_client client_id
  if_found found (pure 0) (λ a. do client ← load a; pure (length client.offline_msg))
