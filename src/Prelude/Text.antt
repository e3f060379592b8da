-- ===== src/Prelude/Text.antt =====
-- String literals as bytes; the program's are ASCII.
use Prim.Native.Char.{code}
use Prim.Native.String.{String}
use mathlib.Core.List.{[], ◌∷◌}
use mqtt_server_go.Prelude.Lists.{Bytes}

abbrev pub codes : String → Bytes
codes String.[] = []
codes (String.◌∷◌ c s) = code c ∷ codes s
