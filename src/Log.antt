-- ===== src/Log.antt =====
-- log/log_print.go: which lines are printed, and their text.
use mqtt_server_go.Prelude.{
  ℕ, ◌/◌, ◌++◌, List, [], ◌∷◌, Bytes, codes, ltb, ◌==◌, if◌then◌else◌, Option, none, some,
}
use mqtt_server_go.Strconv.{itoa, lt_int}

abbrev pub log_debug : ℕ
log_debug = 0

abbrev pub log_trace : ℕ
log_trace = 1

abbrev pub log_info : ℕ
log_info = 2

abbrev pub log_warning : ℕ
log_warning = 3

abbrev pub log_error : ℕ
log_error = 4

abbrev pub log_panic : ℕ
log_panic = 5

-- `MQTT_LogPring`, the type of `GlobalLog`
pub record MqttLogPring : Type 0 where
  pub level : ℕ

-- `LogInit`, on the value of `GlobalLog`
unfoldable pub log_init : ℕ → MqttLogPring → MqttLogPring
log_init level global_log = record global_log { level = level }

-- What `time.Now` gives, in its parts
pub record Time : Type 0 where
  pub year : ℕ
  pub month : ℕ
  pub day : ℕ
  pub hour : ℕ
  pub minute : ℕ
  pub second : ℕ
  pub nanosecond : ℕ

-- `%02d` and `%03d` of a number that is not negative
abbrev two_digits : ℕ → Bytes
two_digits n = if ltb n 10 then b'0' ∷ itoa n else itoa n

abbrev three_digits : ℕ → Bytes
three_digits n = if ltb n 100 then b'0' ∷ two_digits n else itoa n

-- The switch on the level
unfoldable pub level_str : ℕ → Option Bytes
level_str level =
    if level == log_debug
    then some (codes "[DEBUG]")
    else if level == log_trace
    then some (codes "[TRACE]")
    else if level == log_info
    then some (codes "[INFOR]")
    else if level == log_warning
    then some (codes "[WARNG]")
    else if level == log_error
    then some (codes "[ERROR]")
    else if level == log_panic
    then some (codes "[PANIC]")
    else none

unfoldable pub log_head : Time → Bytes → Bytes
log_head t level_text =
    itoa t.year
    ++ codes "/"
    ++ two_digits t.month
    ++ codes "/"
    ++ two_digits t.day
    ++ codes " "
    ++ two_digits t.hour
    ++ codes ":"
    ++ two_digits t.minute
    ++ codes ":"
    ++ two_digits t.second
    ++ codes " "
    ++ three_digits (t.nanosecond / 1000000)
    ++ codes "->"
    ++ level_text
    ++ codes ":"

-- The line that is printed, if any. A level is an int; `sprintf` is `fmt.Sprintf`, and no parameters
-- at all are a nil slice.
module _ {Param : Type 0} (sprintf : Bytes → List Param → Bytes) where
  abbrev message : Bytes → List Param → Bytes
  message format [] = format
  message format (p ∷ params) = sprintf format (p ∷ params)

  unfoldable pub log_print : MqttLogPring → Time → ℕ → Bytes → List Param → Option Bytes
  log_print global_log now level format params =
      if lt_int level global_log.level then none else line (level_str level)
    where
      line : Option Bytes → Option Bytes
      line none = none
      line (some level_text) = some (log_head now level_text ++ message format params)
