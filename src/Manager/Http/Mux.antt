-- ===== src/Manager/Http/Mux.antt =====
-- `mqttServerMux` of manager/http_manager.go: which handler answers a request.
use mqtt_server_go.Prelude.{ℕ, List, [], Bytes, Map, Option, none, some}
use mqtt_server_go.Process.Server.{M, ◌>>=◌, pure}
use mqtt_server_go.Manager.Http.{
  Response, Query, ClientInfoListHandle, ClientSubInfoHandle, OnLineNumHandle, ClientOfflineHandle,
  serve_client_info, serve_client_sub, serve_on_line_num, serve_client_offline, Route,
  on_line_num_route, client_list_route, client_sub_route, off_msg_route, route,
}

-- `json.Marshal` of the four handles
pub record Marshal : Type 0 where
  pub on_line_num_json : OnLineNumHandle → Option Bytes
  pub client_list_json : ClientInfoListHandle → Option Bytes
  pub client_sub_json : ClientSubInfoHandle → Option Bytes
  pub client_off_msg_json : ClientOfflineHandle → Option Bytes

-- The four global handles
pub record Handles : Type 0 where
  pub on_line_num_handle : OnLineNumHandle
  pub client_list_handle : ClientInfoListHandle
  pub client_sub_handle : ClientSubInfoHandle
  pub client_off_msg_handle : ClientOfflineHandle

abbrev pub empty_response : Response
empty_response = record { header = []; written = [] }

-- `visit` is the order in which the request ranges over the clients, `order` the one over a client's topics.
module _ (json : Marshal) (visit : List ℕ) (order : Map Bytes ℕ → Map Bytes ℕ) where
  unfoldable pub serve_route : Option Route → Query → Handles → M (Handles × Option Response)
  serve_route none query h = pure (h, none)
  serve_route (some on_line_num_route) query h = do
    (handle, w) ← serve_on_line_num json.on_line_num_json visit empty_response
    pure (record h { on_line_num_handle = handle }, some w)
  serve_route (some client_list_route) query h = do
    (handle, w) ←
        serve_client_info json.client_list_json visit h.client_list_handle empty_response query
    pure (record h { client_list_handle = handle }, some w)
  serve_route (some client_sub_route) query h = do
    (handle, w) ←
        serve_client_sub json.client_sub_json order h.client_sub_handle empty_response query
    pure (record h { client_sub_handle = handle }, some w)
  serve_route (some off_msg_route) query h = do
    (handle, w) ← serve_client_offline json.client_off_msg_json empty_response query
    pure (record h { client_off_msg_handle = handle }, some w)

  -- A request; a path that is not in the table gets the library's own answer, here `none`.
  unfoldable pub serve : Bytes → Query → Handles → M (Handles × Option Response)
  serve path query h = serve_route (route path) query h
