-- ===== src/Database.antt =====
-- db_dao/redis_operate.go and the interface of db_dao/db_operate.go, over the library redigo.
use mqtt_server_go.Prelude.{
  ℕ, ℤ, pos, minus_one, List, [], ◌∷◌, Bytes, codes, Bool, Option, none, some, if◌then◌else◌,
}

pub record RedisConfig : Type 0 where
  pub address : Bytes
  pub port : ℕ
  pub db_name : Bytes

-- What is asked of a connection: a command with its argument, or its close.
pub data Request (Conn : Type 0) : Type 0 where
  command : Conn → Bytes → Bytes → Request Conn
  close : Conn → Request Conn

-- The operations of an open database, `none` for a connection that is not there
pub record DbOperate (Conn : Type 0) : Type 0 where
  pub open_database : Option Conn × List (Request Conn)
  pub close_database : Option Conn → ℤ × List (Request Conn)

unfoldable pub init_redis_config : RedisConfig → Bytes → ℕ → Bytes → RedisConfig
init_redis_config conf address port db_name = record conf {
  address = address;
  port = port;
  db_name = db_name;
}

-- `redis.Dial` gives a connection or an error, and `is_net_conn` says whether the value that it gives
-- is a `net.Conn` as well.
module _ {Conn : Type 0} (dial : Bytes → Bytes → Option Conn) (is_net_conn : Conn → Bool) where
  -- The text that is made of the address is dropped: the address that is dialled is fixed.
  unfoldable pub open_database : RedisConfig → Option Conn × List (Request Conn)
  open_database conf = opened (dial (codes "tcp") (codes "127.0.0.1:6379"))
    where
      opened : Option Conn → Option Conn × List (Request Conn)
      opened none = (none, [])
      opened (some conn) = (some conn, command conn (codes "SELECT") conf.db_name ∷ [])

  unfoldable pub close_database : Option Conn → ℤ × List (Request Conn)
  close_database none = (minus_one, [])
  close_database (some conn) =
      if is_net_conn conn then (pos 0, close conn ∷ []) else (minus_one, [])

  abbrev pub redis : RedisConfig → DbOperate Conn
  redis conf = record { open_database = open_database conf; close_database = close_database }
