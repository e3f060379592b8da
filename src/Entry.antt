-- ===== src/Entry.antt =====
-- mqtt_server_main.go: what `main` starts.
use mqtt_server_go.Prelude.{
  ℕ, List, [], ◌∷◌, ◌++◌, Bytes, codes, Bool, Option, none, some, Outcome, ok, ◌>>=◌, if◌then◌else◌,
}
use mqtt_server_go.Strconv.{itoa}
use mqtt_server_go.Log.{MqttLogPring, log_init, log_debug}
use mqtt_server_go.Config.{ConfigFile, config_file_init, read_config_value_int}
use mqtt_server_go.Cluster.Start.{Started, start_cluster_server_node}

-- A routine that `main` starts: the dispatcher, the manager, one for a connection
pub data Routine : Type 0 where
  run_dispatch : Routine
  run_manager : Routine
  run_client : ℕ → Routine

-- The accept loop, over what `Accept` gives: a connection, or `none` for an error
unfoldable pub accept_loop : List (Option ℕ) → List Routine
accept_loop [] = []
accept_loop (none ∷ accepts) = accept_loop accepts
accept_loop (some conn ∷ accepts) = run_client conn ∷ accept_loop accepts

-- What a run of `main` comes to: it cannot listen and returns, or it has started the cluster and its
-- routines, in this order.
pub data Launch : Type 0 where
  listen_error : Bytes → Launch
  launched : Bytes → Started → List Routine → Launch

-- `0.0.0.0:port`, for the port of the configuration or 1883
unfoldable pub mqtt_address : ConfigFile → Bytes
mqtt_address cfg = address (read_config_value_int cfg (codes "mqtt") (codes "port"))
  where
    address : ℕ × Bool → Bytes
    address (port, failed) = codes "0.0.0.0:" ++ itoa (if failed then 1883 else port)

-- The library's functions and the system's are parameters: reading the file, and whether a socket is
-- there for an address.
module _ (load_config_file : Bytes → Option ConfigFile) (listen : Bytes → Bool)
    (create_cluster_socket : Bytes → Bool) where
  -- From the value of `GlobalLog`, the file that the flag names, and what `Accept` gives
  unfoldable pub main : MqttLogPring → Bytes → List (Option ℕ) → Outcome (MqttLogPring × Launch)
  main global_log configfile accepts = do
    let global_log = log_init log_debug global_log
    cfg ← config_file_init load_config_file configfile
    let start = start_cluster_server_node cfg create_cluster_socket []
    if listen (mqtt_address cfg)
        then (do
          started ← start
          ok (
            global_log,
            launched (mqtt_address cfg) started (run_dispatch ∷ run_manager ∷ accept_loop accepts),
          ))
        else ok (global_log, listen_error (mqtt_address cfg))
