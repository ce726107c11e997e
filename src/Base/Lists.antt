-- ===== src/Base/Lists.antt =====
-- Lists measured by native numbers, under the library's names, and predicates over lists.
use Prim.Native.Nat.{ℕ, zero, suc, ◌+◌, ◌-◌, min}
use mathlib.Core.Path.{◌≡◌, refl, subst}
use mathlib.Core.Logic.{◌⊎◌, inl, inr}
use mathlib.Core.Bool.{Bool, true, false, ◌&&◌, ◌||◌}
use mathlib.Core.List.{List, [], ◌∷◌, ◌++◌}
use mathlib.Core.Option.{Option, none, some}
use native.Mathlib.Omega.{arith}
use echoear_cloud.Base.Tests.{if◌then◌else◌, Bool-cases}

-- Where a row stands in a table: it is the first, or a later one.
pub data In {ℓ} {A : Type ℓ} (x : A) : List A → Type ℓ where
  first : {y : A} {ys : List A} → y ≡ x → In x (y ∷ ys)
  later : {y : A} {ys : List A} → In x ys → In x (y ∷ ys)

module _ {ℓ} {A : Type ℓ} where
  abbrev pub length : List A → ℕ
  length [] = 0
  length (x ∷ xs) = suc (length xs)

  abbrev pub take : ℕ → List A → List A
  take zero xs = []
  take (suc n) [] = []
  take (suc n) (x ∷ xs) = x ∷ take n xs

  abbrev pub drop : ℕ → List A → List A
  drop zero xs = xs
  drop (suc n) [] = []
  drop (suc n) (x ∷ xs) = drop n xs

  abbrev pub replicate : ℕ → A → List A
  replicate zero a = []
  replicate (suc n) a = a ∷ replicate n a

  -- The rows that pass a Boolean test, as a `WHERE` clause keeps them.
  abbrev pub select : (A → Bool) → List A → List A
  select p [] = []
  select p (x ∷ xs) = if p x then x ∷ select p xs else select p xs

  abbrev pub any : (A → Bool) → List A → Bool
  any p [] = false
  any p (x ∷ xs) = p x || any p xs

  abbrev pub all : (A → Bool) → List A → Bool
  all p [] = true
  all p (x ∷ xs) = p x && all p xs

  abbrev pub find : (A → Bool) → List A → Option A
  find p [] = none
  find p (x ∷ xs) = if p x then some x else find p xs

  abbrev pub All {κ} : (A → Type κ) → List A → Type κ
  All P [] = Unit
  All P (x ∷ xs) = P x × All P xs

  pub In-All {κ} : (P : A → Type κ) (x : A) (ys : List A) → In x ys → All P ys → P x
  In-All P x [] i h = elim i [ ]
  In-All P x (y ∷ ys) (first e) (p, h) = subst P e p
  In-All P x (y ∷ ys) (later i) (p, h) = In-All P x ys i h

  pub In-append_left : (x : A) (ys zs : List A) → In x ys → In x (ys ++ zs)
  In-append_left x [] zs i = elim i [ ]
  In-append_left x (y ∷ ys) zs (first e) = first e
  In-append_left x (y ∷ ys) zs (later i) = later (In-append_left x ys zs i)

  pub In-append_right : (x : A) (ys zs : List A) → In x zs → In x (ys ++ zs)
  In-append_right x [] zs i = i
  In-append_right x (y ∷ ys) zs i = later (In-append_right x ys zs i)

  pub All-append {κ} : (P : A → Type κ) (xs ys : List A) → All P xs → All P ys → All P (xs ++ ys)
  All-append P [] ys h k = k
  All-append P (x ∷ xs) ys (p, h) k = (p, All-append P xs ys h k)

  pub All-map {κ} : {P Q : A → Type κ} (xs : List A) → ((x : A) → P x → Q x) → All P xs → All Q xs
  All-map [] f h = tt
  All-map (x ∷ xs) f (p, h) = (f x p, All-map xs f h)

  pub find-In : (p : A → Bool) (xs : List A) {x : A} → find p xs ≡ some x → In x xs × (p x ≡ true)
  find-In p [] e = cc
  find-In p (y ∷ ys) {x} e = go (Bool-cases (p y)) (find-In p ys {x = x})
    where
      go :
          (p y ≡ true) ⊎ (p y ≡ false)
          → (find p ys ≡ some x → In x ys × (p x ≡ true))
          → In x (y ∷ ys) × (p x ≡ true)
      go (inl hit) rest =
          let same : y ≡ x = ground arith in (first same, subst (λ z. p z ≡ true) same hit)
      go (inr miss) rest = let (i, q) = rest (rw miss at e) in (later i, q)

  pub find-append_last :
      (p : A → Bool) (xs : List A) (y : A)
      → any p xs ≡ false
      → p y ≡ true
      → find p (xs ++ y ∷ []) ≡ some y
  find-append_last p [] y h hit = rw hit refl
  find-append_last p (x ∷ xs) y h hit = elim (Bool-cases (p x)) [
    | inl here ↦ cc (rw (here, ◌||◌) at h)
    | inr miss ↦ rw miss (find-append_last p xs y (rw (miss, ◌||◌) at h) hit)
  ]

  pub any-find : (p : A → Bool) (xs : List A) → any p xs ≡ true → (x : A) × (find p xs ≡ some x)
  any-find p [] h = cc
  any-find p (y ∷ ys) h = elim (Bool-cases (p y)) [
    | inl hit ↦ (y, rw hit refl)
    | inr miss ↦ let (x, e) = any-find p ys (rw (miss, ◌||◌) at h) in (x, rw miss e)
  ]

  pub find-any : (p : A → Bool) (xs : List A) {x : A} → find p xs ≡ some x → any p xs ≡ true
  find-any p [] e = cc
  find-any p (y ∷ ys) {x} e = elim (Bool-cases (p y)) [
    | inl hit ↦ rw hit refl
    | inr miss ↦ rw miss (find-any p ys {x = x} (rw miss at e))
  ]

  pub length-append : (xs ys : List A) → length (xs ++ ys) ≡ length xs + length ys
  length-append [] ys = omega arith
  length-append (x ∷ xs) ys = omega (arith, length-append xs ys)

  pub take-append-drop : (n : ℕ) (xs : List A) → take n xs ++ drop n xs ≡ xs
  take-append-drop zero xs = refl
  take-append-drop (suc n) [] = refl
  take-append-drop (suc n) (x ∷ xs) = rw (take-append-drop n xs)

  pub length-take : (n : ℕ) (xs : List A) → length (take n xs) ≡ min n (length xs)
  length-take zero xs = omega arith
  length-take (suc n) [] = omega arith
  length-take (suc n) (x ∷ xs) = omega (arith, length-take n xs)

  pub length-drop : (n : ℕ) (xs : List A) → length (drop n xs) ≡ length xs - n
  length-drop zero xs = omega arith
  length-drop (suc n) [] = omega arith
  length-drop (suc n) (x ∷ xs) = omega (arith, length-drop n xs)
