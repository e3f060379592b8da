-- ===== src/Manager/Http/Pages.antt =====
-- What the manager answers.
use mqtt_server_go.Prelude.{
  ℕ, ◌+◌, ◌^◌, ◌<◌, ◌≡◌, ◌⊎◌, inl, inr, refl, arith, List, [], ◌∷◌, map, Bytes, codes, length, take,
  drop, Map, bytes_eq, Option-cases, none, some, ok, insert,
}
use mqtt_server_go.Strconv.{itoa}
use mqtt_server_go.Strconv.RoundTrip.{atoi-itoa}
use mqtt_server_go.Process.Server.{MqttClientInfo, Server}
use mqtt_server_go.Manager.Clients.Views.{Visits, shown, get_client_info_list_lem}
use mqtt_server_go.Manager.Http.{
  Query, answer, int_of, serve_client_info, serve_client_sub, route, client_list_route,
  client_sub_route,
}
use mqtt_server_go.Manager.Http.Mux.{Marshal, Handles, empty_response, serve_route, serve}

int_of-itoa : (n : ℕ) → n < 2 ^ 64 → int_of (itoa n) ≡ some n
unfolding int_of
int_of-itoa n h = rw (atoi-itoa n h) refl

module _ (json : Marshal) (visit : List ℕ) (order : Map Bytes ℕ → Map Bytes ℕ) where
  client_list-route : route (codes "/getClientList") ≡ some client_list_route
  unfolding route
  client_list-route = refl

  -- For a visit of clients that are there, and bounds whose sum is an int: a request for the list of
  -- clients that names the bounds in decimal is answered by the JSON text of that part of the visit, in
  -- its order, with the two header lines, and the state of the server is as before. Each client is shown
  -- with its id, its name, its login flag, the number of its kept messages, and 0 topics.
  pub serve-client_list :
      (start limit : ℕ) (cs : List MqttClientInfo) (body : Bytes) (query : Query) (h : Handles)
      (s : Server)
      → Visits s visit cs
      → length cs < 2 ^ 63
      → start + limit < 2 ^ 63
      → query (codes "start") ≡ itoa start
      → query (codes "limit") ≡ itoa limit
      → json.client_list_json (record { client_info_list = map shown (take limit (drop start cs)) })
        ≡ some body
      → serve json visit order (codes "/getClientList") query h s
        ≡ ok (
          (
            record h {
              client_list_handle = record {
                client_info_list = map shown (take limit (drop start cs));
              };
            },
            some (record {
              header =
                  (codes "Access-Control-Allow-Origin", codes "*")
                  ∷ (codes "Content-Type", codes "application/json")
                  ∷ [];
              written = body;
            }),
          ),
          s,
        )
  unfolding serve serve_route serve_client_info answer insert
  serve-client_list start limit cs body query h s v small fits e f j =
      rw
        (
          client_list-route,
          e,
          f,
          int_of-itoa start (omega arith),
          int_of-itoa limit (omega arith),
          get_client_info_list_lem s start limit visit cs v small fits,
          j,
        )
        refl

  client_sub-route : route (codes "/getClientSub") ≡ some client_sub_route
  unfolding route
  client_sub-route = refl

  -- A request for the list of clients or of a client's topics where a bound is no number, or out of the
  -- range of an int, is answered by an empty response, and nothing changes.
  pub serve-refused :
      (query : Query) (h : Handles) (s : Server)
      → (int_of (query (codes "start")) ≡ none) ⊎ (int_of (query (codes "limit")) ≡ none)
      → (serve json visit order (codes "/getClientList") query h s
          ≡ ok ((h, some empty_response), s))
        × (serve json visit order (codes "/getClientSub") query h s
            ≡ ok ((h, some empty_response), s))
  unfolding serve serve_route serve_client_info serve_client_sub
  serve-refused query h s (inl e) = (rw (client_list-route, e) refl, rw (client_sub-route, e) refl)
  serve-refused query h s (inr e) = elim (Option-cases (int_of (query (codes "start")))) [
    | inl none' ↦ (rw (client_list-route, none') refl, rw (client_sub-route, none') refl)
    | inr (n, some') ↦ (rw (client_list-route, some', e) refl, rw (client_sub-route, some', e) refl)
  ]
