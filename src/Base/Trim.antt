-- ===== src/Base/Trim.antt =====
-- `strings.TrimSpace` on what it has trimmed.
use Prim.Native.String.{String, len}
use mathlib.Core.Path.{◌≡◌, refl, sym, ap, ◌∙◌}
use mathlib.Core.Bool.{false}
use native.Mathlib.Omega.{arith}
use echoear_cloud.Base.Tests.{ltb}
use echoear_cloud.Base.Text.{is_empty, trim_left, trim_right, trim_space}

pub trim_right_idem : (s : String) → trim_right (trim_right s) ≡ trim_right s
unfolding trim_right
trim_right_idem String.[] = refl
trim_right_idem (String.◌∷◌ c s) = ground (arith, trim_right_idem s)

trim_left_kept : (s : String) → trim_left (trim_right (trim_left s)) ≡ trim_right (trim_left s)
unfolding trim_left trim_right
trim_left_kept String.[] = refl
trim_left_kept (String.◌∷◌ c s) = ground (arith, trim_left_kept s)

pub trim_space_idem : (s : String) → trim_space (trim_space s) ≡ trim_space s
unfolding trim_space
trim_space_idem s = ap trim_right (trim_left_kept s) ∙ trim_right_idem (trim_left s)

-- A text that is trimmed already has no space at its end.
pub trim_right-plain : (s : String) → trim_space s ≡ s → trim_right s ≡ s
unfolding trim_space
trim_right-plain s e = ap trim_right (sym e) ∙ trim_right_idem (trim_left s) ∙ e

-- A text of six bytes or more is not empty.
pub is_empty-len : (s : String) → ltb (len s) 6 ≡ false → is_empty s ≡ false
is_empty-len String.[] h = cc
is_empty-len (String.◌∷◌ c s) h = refl
