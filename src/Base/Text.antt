-- ===== src/Base/Text.antt =====
-- The functions of Go's `strings` that the program uses, over native texts: `len` counts bytes,
-- and a text is walked by code points, as `range` does.
use Prim.Native.Nat.{ℕ}
use Prim.Native.Char.{code}
use Prim.Native.String.{String}
use mathlib.Core.Bool.{Bool, true, false, ◌&&◌, ◌||◌}
pub use text.Mathlib.Text.{◌==◌ as str_eq, starts_with}
use echoear_cloud.Base.Tests.{leb, ◌==◌, if◌then◌else◌}

-- `unicode.IsSpace`.
unfoldable pub is_space : ℕ → Bool
is_space c =
    (leb 9 c && leb c 13)
    || c == 32
    || c == 0x85
    || c == 0xa0
    || c == 0x1680
    || (leb 0x2000 c && leb c 0x200a)
    || c == 0x2028
    || c == 0x2029
    || c == 0x202f
    || c == 0x205f
    || c == 0x3000

abbrev pub is_empty : String → Bool
is_empty String.[] = true
is_empty (String.◌∷◌ c s) = false

unfoldable pub trim_left : String → String
unfolding is_space
trim_left String.[] = String.[]
trim_left (String.◌∷◌ c s) = if is_space (code c) then trim_left s else String.◌∷◌ c s

unfoldable pub trim_right : String → String
unfolding is_space
trim_right String.[] = String.[]
trim_right (String.◌∷◌ c s) =
    let rest = trim_right s in
    if is_space (code c) && is_empty rest then String.[] else String.◌∷◌ c rest

-- `strings.TrimSpace`.
unfoldable pub trim_space : String → String
unfolding trim_left trim_right
trim_space s = trim_right (trim_left s)
