-- ===== src/Config.antt =====
-- config/mqtt_config_file.go: the values of the configuration file, read through the library goconfig.
use mqtt_server_go.Prelude.{ℕ, [], Bytes, Bool, true, false, Outcome, ok, panic, Option, none, some}

-- A `*goconfig.ConfigFile`: its methods, `none` for an error. A float64 is kept as its word.
pub record ConfigFile : Type 0 where
  pub int : Bytes → Bytes → Option ℕ
  pub get_value : Bytes → Bytes → Option Bytes
  pub bool : Bytes → Bytes → Option Bool
  pub float64 : Bytes → Bytes → Option ℕ

-- `ConfigFileInit`, for `goconfig.LoadConfigFile`
unfoldable pub config_file_init : (Bytes → Option ConfigFile) → Bytes → Outcome ConfigFile
config_file_init load_config_file file = loaded (load_config_file file)
  where
    loaded : Option ConfigFile → Outcome ConfigFile
    loaded none = panic
    loaded (some config) = ok config

-- The value, and whether there is an error
abbrev value_or {ℓ} : {A : Type ℓ} → A → Option A → A × Bool
value_or default none = (default, true)
value_or default (some value) = (value, false)

module _ (cfg : ConfigFile) where
  unfoldable pub read_config_value_int : Bytes → Bytes → ℕ × Bool
  read_config_value_int section key = value_or 0 (cfg.int section key)

  unfoldable pub read_config_value_string : Bytes → Bytes → Bytes × Bool
  read_config_value_string section key = value_or [] (cfg.get_value section key)

  unfoldable pub read_config_value_bool : Bytes → Bytes → Bool × Bool
  read_config_value_bool section key = value_or false (cfg.bool section key)

  unfoldable pub read_config_value_double : Bytes → Bytes → ℕ × Bool
  read_config_value_double section key = value_or 0 (cfg.float64 section key)
