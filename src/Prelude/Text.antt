-- ===== src/Prelude/Text.antt =====
-- `format!` with one text put after another.
use Prim.Native.String.{String, ◌++◌}

abbrev pub prefixed : String → String → String
prefixed before s = before ++ s
