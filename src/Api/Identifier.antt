-- ===== src/Api/Identifier.antt =====
-- `validIdentifier` of internal/api/echoear_handlers.go, the test of every path and body identifier.
use Prim.Native.Char.{code}
use mathlib.Core.Bool.{and-eq-true_iff}
use echoear_cloud.Base.{
  ℕ, String, len, Bool, true, false, ◌≤◌, ◌≡◌, refl, ◌↔◌, ◌⊎◌, ◌&&◌, ◌||◌, arith, ltb, leb, ◌==◌,
  if◌then◌else◌,
}

-- The byte classes that the loop lets pass.
identifier_rune : ℕ → Bool
identifier_rune r =
    (leb b'a' r && leb r b'z')
    || (leb b'A' r && leb r b'Z')
    || (leb b'0' r && leb r b'9')
    || r == b'-'
    || r == b'_'
    || r == b'.'

all_identifier_runes : String → Bool
unfolding identifier_rune
all_identifier_runes String.[] = true
all_identifier_runes (String.◌∷◌ c s) = identifier_rune (code c) && all_identifier_runes s

unfoldable pub valid_identifier : String → ℕ → ℕ → Bool
unfolding all_identifier_runes
valid_identifier value min max =
    if ltb (len value) min || ltb max (len value) then false else all_identifier_runes value

-- What an identifier is, said without the loop.
abbrev pub IsIdentifierRune : ℕ → Type 0
IsIdentifierRune r =
    ((b'a' ≤ r) × (r ≤ b'z'))
    ⊎ ((b'A' ≤ r) × (r ≤ b'Z'))
    ⊎ ((b'0' ≤ r) × (r ≤ b'9'))
    ⊎ (r ≡ b'-')
    ⊎ (r ≡ b'_')
    ⊎ (r ≡ b'.')

abbrev pub EveryRune : (ℕ → Type 0) → String → Type 0
EveryRune P String.[] = Unit
EveryRune P (String.◌∷◌ c s) = P (code c) × EveryRune P s

identifier_rune_sound : (r : ℕ) → identifier_rune r ≡ true → IsIdentifierRune r
unfolding identifier_rune
identifier_rune_sound r h = ground arith

identifier_rune_complete : (r : ℕ) → IsIdentifierRune r → identifier_rune r ≡ true
unfolding identifier_rune
identifier_rune_complete r h = ground arith

runes_sound : (s : String) → all_identifier_runes s ≡ true → EveryRune IsIdentifierRune s
unfolding all_identifier_runes
runes_sound String.[] h = tt
runes_sound (String.◌∷◌ c s) h =
    let (here, later) = (and-eq-true_iff _ _).0 h in
    (identifier_rune_sound (code c) here, runes_sound s later)

runes_complete : (s : String) → EveryRune IsIdentifierRune s → all_identifier_runes s ≡ true
unfolding all_identifier_runes
runes_complete String.[] h = refl
runes_complete (String.◌∷◌ c s) (p, h) =
    rw (identifier_rune_complete (code c) p) (runes_complete s h)

-- A text passes exactly when its length in bytes lies within the bounds and every code point is an
-- ASCII letter, a digit, '-', '_' or '.'.
pub valid_identifier_iff :
    (s : String) (min max : ℕ)
    → (valid_identifier s min max ≡ true)
      ↔ ((min ≤ len s) × (len s ≤ max) × EveryRune IsIdentifierRune s)
unfolding valid_identifier
valid_identifier_iff s min max = (
  λ h. (ground arith, ground arith, runes_sound s (ground arith)),
  λ (lo, hi, e). ground (arith, runes_complete s e),
)
