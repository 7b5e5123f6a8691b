-- ===== src/Base/Text.antt =====
-- Texts of the source as their bytes.
use Prim.Native.Char.{code}
use Prim.Native.String.{String}
use refix.Base.{[], ◌∷◌, Bytes}

-- The bytes of an ASCII text. `String` has its own `[]` and `∷`.
abbrev pub codes : String → Bytes
codes String.[] = []
codes (String.◌∷◌ c s) = code c ∷ codes s
