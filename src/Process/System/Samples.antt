-- ===== src/Process/System/Samples.antt =====
-- A run to the login of one client, for the concrete runs.
use mqtt_server_go.Prelude.{[], ◌∷◌, Bytes, some}
use mqtt_server_go.Cluster.Message.{client, text, msg_client_add, cluster_login_msg}
use mqtt_server_go.Process.Server.{MqttClientInfo, write, to_dispatch, to_cluster}
use mqtt_server_go.Process.Handlers.{cluster_msg}
use mqtt_server_go.Process.Session.{new_client}
use mqtt_server_go.Process.System.{System}

-- A CONNECT of client "z"
abbrev pub connect_packet : Bytes
connect_packet = 0x10 ∷ 13 ∷ 0 ∷ 4 ∷ 77 ∷ 81 ∷ 84 ∷ 84 ∷ 4 ∷ 2 ∷ 0 ∷ 60 ∷ 0 ∷ 1 ∷ 122 ∷ []

abbrev pub z : MqttClientInfo
z = record new_client {
  client_id = 122 ∷ [];
  pingperiod = 60;
  clear_session = 1;
  login_success = 1;
  conn = 7;
  heart_timeout = 60;
}

abbrev pub logged_on : System
logged_on = record {
  server = record {
    heap = z ∷ [];
    clients = (122 ∷ [], 0) ∷ [];
    drawn = 0;
    trace =
        write 7 (0x20 ∷ 2 ∷ 1 ∷ 0 ∷ [])
        ∷ to_dispatch (record { msg_type = msg_client_add; msg_from = []; msg_body = client 0 })
        ∷ to_cluster (cluster_msg cluster_login_msg (text (122 ∷ [])))
        ∷ [];
  };
  conns = (7, some 0) ∷ [];
  inbox = [];
}
