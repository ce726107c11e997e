-- ===== src/Base/Maps.antt =====
-- Go maps with string keys, as association lists with one entry a key.
use Prim.Native.Nat.{◌+◌, ◌≤◌}
use Prim.Native.String.{String}
use mathlib.Core.Path.{◌≡◌, refl, subst₂}
use mathlib.Core.List.{List, [], ◌∷◌}
use mathlib.Core.Option.{Option, none, some}
use native.Mathlib.Omega.{arith}
use text.Mathlib.Text.{◌==◌ as str_eq}
use text.Mathlib.TextEquality.{eq_iff}
use mathlib.Core.Logic.{inl, inr}
use echoear_cloud.Base.Tests.{if◌then◌else◌, Bool-cases}
use echoear_cloud.Base.Lists.{length, All}

module _ {ℓ} {V : Type ℓ} where
  -- `m[key]`, and whether it is there.
  unfoldable pub lookup : String → List (String × V) → Option V
  lookup key [] = none
  lookup key ((other, w) ∷ rest) = if str_eq other key then some w else lookup key rest

  -- `delete(m, key)`.
  unfoldable pub erase : String → List (String × V) → List (String × V)
  erase key [] = []
  erase key ((other, w) ∷ rest) =
      if str_eq other key then erase key rest else (other, w) ∷ erase key rest

  -- `m[key] = v`.
  unfoldable pub insert : String → V → List (String × V) → List (String × V)
  insert key v [] = (key, v) ∷ []
  insert key v ((other, w) ∷ rest) =
      if str_eq other key then (key, v) ∷ rest else (other, w) ∷ insert key v rest

  pub lookup-insert :
      (key asked : String) (v : V) (m : List (String × V))
      → lookup asked (insert key v m) ≡ (if str_eq key asked then some v else lookup asked m)
  unfolding insert lookup
  lookup-insert key asked v [] = refl
  lookup-insert key asked v ((other, w) ∷ rest) = ground (
    arith,
    lookup-insert key asked v rest,
    eq_iff other asked,
    eq_iff other key,
    eq_iff key asked,
  )

  pub lookup-erase :
      (k j : String) (m : List (String × V))
      → lookup j (erase k m) ≡ (if str_eq k j then none else lookup j m)
  unfolding lookup erase
  lookup-erase k j [] = ground arith
  lookup-erase k j ((i, w) ∷ m) =
      ground (arith, eq_iff k j, eq_iff i k, eq_iff i j, lookup-erase k j m)

  pub length-insert :
      (k : String) (v : V) (m : List (String × V)) → length (insert k v m) ≤ length m + 1
  unfolding insert
  length-insert k v [] = omega arith
  length-insert k v ((i, w) ∷ m) = ground (arith, length-insert k v m)

  pub length-insert_pos : (k : String) (v : V) (m : List (String × V)) → 1 ≤ length (insert k v m)
  unfolding insert
  length-insert_pos k v [] = omega arith
  length-insert_pos k v ((i, w) ∷ m) = ground arith

  pub length-erase-le : (k : String) (m : List (String × V)) → length (erase k m) ≤ length m
  unfolding erase
  length-erase-le k [] = omega arith
  length-erase-le k ((i, w) ∷ m) = ground (arith, length-erase-le k m)

  module _ {κ} (P : String × V → Type κ) where
    pub All-insert :
        (k : String) (v : V) (m : List (String × V)) → P (k, v) → All P m → All P (insert k v m)
    unfolding insert
    All-insert k v [] p h = (p, tt)
    All-insert k v ((i, w) ∷ m) p (q, h) = ground (arith, All-insert k v m p h)

    pub All-erase : (k : String) (m : List (String × V)) → All P m → All P (erase k m)
    unfolding erase
    All-erase k [] h = h
    All-erase k ((i, w) ∷ m) (q, h) = ground (arith, All-erase k m h)

    pub lookup-All :
        (k : String) (m : List (String × V)) {v : V} → All P m → lookup k m ≡ some v → P (k, v)
    unfolding lookup
    lookup-All k [] h e = cc
    lookup-All k ((i, w) ∷ m) {v} (q, h) e = elim (Bool-cases (str_eq i k)) [
      | inl hit ↦ subst₂ (λ j x. P (j, x)) ((eq_iff i k).0 hit) (ground arith) q
      | inr miss ↦ lookup-All k m h (rw (miss, lookup) at e)
    ]
