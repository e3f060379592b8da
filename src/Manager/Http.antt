-- ===== src/Manager/Http.antt =====
-- The handlers of manager/ and the table of `Http_Manager_Server` in manager/http_manager.go.
pub mod Mux
pub mod Pages
use mqtt_server_go.Prelude.{
  ℕ, List, [], ◌∷◌, ◌++◌, Bytes, codes, Bool, true, false, Map, insert, bytes_eq, bytes_beq, Option,
  none, some, if◌then◌else◌,
}
use mqtt_server_go.Strconv.{atoi, itoa}
use mqtt_server_go.Config.{ConfigFile, read_config_value_int}
use mqtt_server_go.Process.Server.{M, ◌>>=◌, pure, if_found}
use mqtt_server_go.Manager.Clients.{
  ClientInfo, get_client_info_list, get_on_line_client_num, get_session_num,
  get_client_off_line_msg_list,
}
use mqtt_server_go.Manager.Subscriptions.{SubInfo, get_client_sub_list}

-- `http.ResponseWriter`: the header, and what was written
pub record Response : Type 0 where
  pub header : Map Bytes Bytes
  pub written : Bytes

-- `r.URL.Query().Get`: the empty string for a name that the query lacks
abbrev pub Query : Type 0
Query = Bytes → Bytes

pub record ClientInfoListHandle : Type 0 where
  pub client_info_list : List ClientInfo

pub record ClientSubInfoHandle : Type 0 where
  pub client_sub_info_list : Option (List SubInfo)

pub record OnLineNumHandle : Type 0 where
  pub num : ℕ

pub record SessionNumHandel : Type 0 where
  pub num : ℕ

pub record ClientOfflineHandle : Type 0 where
  pub client_offline_num : ℕ

-- The end of every handler, for the result of `json.Marshal`, `none` for an error
unfoldable pub answer : Option Bytes → Response → Response
answer none w = w
answer (some json_resp) w = record {
  header =
      insert (codes "Content-Type") (codes "application/json")
        (insert (codes "Access-Control-Allow-Origin") (codes "*") w.header);
  written = w.written ++ json_resp;
}

-- `strconv.Atoi` where an error ends the handler
unfoldable pub int_of : Bytes → Option ℕ
int_of arg = read (atoi arg)
  where
    read : ℕ × Bool → Option ℕ
    read (n, true) = none
    read (n, false) = some n

-- `ServeHTTP` of each handle, which keeps what it showed last. `marshal` is `json.Marshal`.
unfoldable pub serve_client_info :
    (ClientInfoListHandle → Option Bytes)
    → List ℕ
    → ClientInfoListHandle
    → Response
    → Query
    → M (ClientInfoListHandle × Response)
serve_client_info marshal visit list w query =
    if_found (int_of (query (codes "start"))) (pure (list, w)) (λ start.
      if_found (int_of (query (codes "limit"))) (pure (list, w)) (λ limit. do
        infos ← get_client_info_list visit start limit
        let list : ClientInfoListHandle = record { client_info_list = infos }
        pure (list, answer (marshal list) w)))

unfoldable pub serve_client_sub :
    (ClientSubInfoHandle → Option Bytes)
    → (Map Bytes ℕ → Map Bytes ℕ)
    → ClientSubInfoHandle
    → Response
    → Query
    → M (ClientSubInfoHandle × Response)
serve_client_sub marshal visit list w query =
    if_found (int_of (query (codes "start"))) (pure (list, w)) (λ start.
      if_found (int_of (query (codes "limit"))) (pure (list, w)) (λ limit. do
        infos ← get_client_sub_list visit (query (codes "clientId")) start limit
        let list : ClientSubInfoHandle = record { client_sub_info_list = infos }
        pure (list, answer (marshal list) w)))

unfoldable pub serve_on_line_num :
    (OnLineNumHandle → Option Bytes) → List ℕ → Response → M (OnLineNumHandle × Response)
serve_on_line_num marshal visit w = do
  n ← get_on_line_client_num visit
  let online : OnLineNumHandle = record { num = n }
  pure (online, answer (marshal online) w)

unfoldable pub serve_session_num :
    (SessionNumHandel → Option Bytes) → Response → M (SessionNumHandel × Response)
serve_session_num marshal w = do
  n ← get_session_num
  let session : SessionNumHandel = record { num = n }
  pure (session, answer (marshal session) w)

unfoldable pub serve_client_offline :
    (ClientOfflineHandle → Option Bytes) → Response → Query → M (ClientOfflineHandle × Response)
serve_client_offline marshal w query = do
  n ← get_client_off_line_msg_list (query (codes "clientId"))
  let list : ClientOfflineHandle = record { client_offline_num = n }
  pure (list, answer (marshal list) w)

-- The handles that `mqttServerMux` serves, by their exact path
pub data Route : Type 0 where
  on_line_num_route : Route
  client_list_route : Route
  client_sub_route : Route
  off_msg_route : Route

unfoldable pub route : Bytes → Option Route
route path =
    if bytes_beq path (codes "/getOnLineNum")
    then some on_line_num_route
    else if bytes_beq path (codes "/getClientList")
    then some client_list_route
    else if bytes_beq path (codes "/getClientSub")
    then some client_sub_route
    else if bytes_beq path (codes "/getOfflienMsg")
    then some off_msg_route
    else none

-- The address that the manager listens at
unfoldable pub manager_address : ConfigFile → Bytes
manager_address cfg = address (read_config_value_int cfg (codes "http") (codes "port"))
  where
    address : ℕ × Bool → Bytes
    address (port, failed) = codes "0.0.0.0:" ++ itoa (if failed then 9000 else port)
