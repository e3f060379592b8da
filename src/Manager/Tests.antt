-- ===== src/Manager/Tests.antt =====
-- The manager's theorems at the sample server.
use mathlib.Core.List.Perm
use mqtt_server_go.Prelude.{
  ℕ, ◌≡◌, ◌≤◌, refl, arith, List, [], ◌∷◌, Bytes, codes, bytes_beq, some, none, ok, if◌then◌else◌,
  Map,
}
use mqtt_server_go.Strconv.{itoa}
use mqtt_server_go.Process.Server.{MqttClientInfo, Server}
use mqtt_server_go.Process.Samples.{alice, bob, carol, server, message}
use mqtt_server_go.Manager.Clients.{get_on_line_client_num}
use mqtt_server_go.Manager.Clients.Views.{Visits, get_on_line_client_num-Perm}
use mqtt_server_go.Manager.Http.{Query}
use mqtt_server_go.Manager.Http.Mux.{Marshal, Handles, serve}
use mqtt_server_go.Manager.Http.Pages.{serve-client_list}

-- "bob" has a name and a kept message, and "carol" is away.
abbrev named : MqttClientInfo
named = record bob { username = codes "bob"; offline_msg = message 1 ∷ [] }

abbrev away : MqttClientInfo
away = record carol { login_success = 0 }

abbrev clients : List MqttClientInfo
clients = alice ∷ named ∷ away ∷ []

abbrev sample : Server
sample = record server { heap = clients }

visited : Visits sample (0 ∷ 1 ∷ 2 ∷ []) clients
visited = (refl, (refl, (refl, tt)))

abbrev json : Marshal
json = record {
  on_line_num_json = λ h. none;
  client_list_json = λ h. some (codes "{}");
  client_sub_json = λ h. none;
  client_off_msg_json = λ h. none;
}

abbrev handles : Handles
handles = record {
  on_line_num_handle = record { num = 0 };
  client_list_handle = record { client_info_list = [] };
  client_sub_handle = record { client_sub_info_list = none };
  client_off_msg_handle = record { client_offline_num = 0 };
}

-- start=1&limit=1
abbrev second : Query
second name = if bytes_beq name (codes "start") then itoa 1 else itoa 1

order : Map Bytes ℕ → Map Bytes ℕ
order m = m

serve-client_list_example :
    serve json (0 ∷ 1 ∷ 2 ∷ []) order (codes "/getClientList") second handles sample
    ≡ ok (
      (
        record handles {
          client_list_handle = record {
            client_info_list =
                record {
                  client_id = codes "b";
                  username = codes "bob";
                  login_success = 1;
                  sub_topic_num = 0;
                  offline_num = 1;
                }
                ∷ [];
          };
        },
        some (record {
          header =
              (codes "Access-Control-Allow-Origin", codes "*")
              ∷ (codes "Content-Type", codes "application/json")
              ∷ [];
          written = codes "{}";
        }),
      ),
      sample,
    )
serve-client_list_example =
    serve-client_list json (0 ∷ 1 ∷ 2 ∷ []) order 1 1 clients (codes "{}") second handles sample
      visited (omega arith) (omega arith) refl refl refl

get_on_line_client_num-Perm_example :
    (get_on_line_client_num (0 ∷ 1 ∷ 2 ∷ []) sample ≡ ok (2, sample))
    × (get_on_line_client_num (1 ∷ 0 ∷ 2 ∷ []) sample ≡ ok (2, sample))
    × (2 ≤ 3)
get_on_line_client_num-Perm_example =
    get_on_line_client_num-Perm sample (0 ∷ 1 ∷ 2 ∷ []) (1 ∷ 0 ∷ 2 ∷ []) clients
      (named ∷ alice ∷ away ∷ []) visited (refl, (refl, (refl, tt)))
      (Perm.swap named alice (away ∷ []))
