-- ===== src/Api/Http.antt =====
-- internal/api/helpers.go, and what the handlers of internal/api answer: a status of HTTP with `fail`, or
-- the data of `ok`. The message beside a status is not modelled.
use Prim.Native.Char.{code}
use echoear_cloud.Base.{
  ℕ, String, Bool, true, false, none, some, Option, List, ◌||◌, any, if◌then◌else◌, ◌==◌, str_eq,
  trim_space, ◌≡◌, refl,
}

pub data Answer {ℓ} (A : Type ℓ) : Type ℓ where
  refused : ℕ → Answer A
  done : A → Answer A

-- `strings.SplitN(text, " ", 2)`: the two parts, or `none` where there is one.
abbrev with_first : {A : Type 0} → (A → A) → Option (A × String) → Option (A × String)
with_first f none = none
with_first f (some (a, rest)) = some (f a, rest)

unfoldable pub split_space : String → Option (String × String)
split_space String.[] = none
split_space (String.◌∷◌ c s) =
    let rest = split_space s in
    if code c == 32 then some (String.[], s) else with_first (λ t. String.◌∷◌ c t) rest

abbrev pub contains : List String → String → Bool
contains values wanted = any (λ v. str_eq v wanted) values

module _ (lower : String → String) where
  unfoldable pub truthy : String → Bool
  truthy value =
      let text = lower (trim_space value) in
      str_eq text "1" || str_eq text "true" || str_eq text "yes" || str_eq text "on"

-- A handler that has answered has passed its guard.
pub if-eq_done {ℓ κ} :
    {D : Type ℓ} {A : Type κ} (b : Bool) (d d' : D) (status : ℕ) (rest : D × Answer A) {a : A}
    → (if b then (d, refused status) else rest) ≡ (d', done a)
    → (b ≡ false) × (rest ≡ (d', done a))
if-eq_done true d d' status rest e = cc
if-eq_done false d d' status rest e = (refl, e)
