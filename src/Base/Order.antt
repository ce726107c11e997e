-- ===== src/Base/Order.antt =====
-- `ORDER BY … DESC` on a column of numbers; rows that stand alike keep their order.
use Prim.Native.Nat.{ℕ, ◌≤◌}
use mathlib.Core.Path.{◌≡◌, subst}
use mathlib.Core.Logic.{◌⊎◌, ◌↔◌, inl, inr}
use mathlib.Core.Bool.{Bool, true, false}
use mathlib.Core.List.{List, [], ◌∷◌}
use native.Mathlib.Omega.{arith}
use echoear_cloud.Base.Tests.{if◌then◌else◌, Bool-cases, ltb}
use echoear_cloud.Base.Lists.{In, first, later, All, All-map, select}

module _ {ℓ} {A : Type ℓ} where
  unfoldable pub place_by : (A → ℕ) → A → List A → List A
  place_by key x [] = x ∷ []
  place_by key x (y ∷ ys) =
      let rest = place_by key x ys in if ltb (key x) (key y) then y ∷ rest else x ∷ y ∷ ys

  unfoldable pub newest_by : (A → ℕ) → List A → List A
  unfolding place_by
  newest_by key [] = []
  newest_by key (x ∷ xs) = place_by key x (newest_by key xs)

  In-skip : (x y z : A) (ys : List A) → In z (x ∷ ys) → In z (x ∷ y ∷ ys)
  In-skip x y z ys (first e) = first e
  In-skip x y z ys (later i) = later (later i)

  In-swap : (x y z : A) (ys : List A) → In z (x ∷ y ∷ ys) → In z (y ∷ x ∷ ys)
  In-swap x y z ys (first e) = later (first e)
  In-swap x y z ys (later i) = In-skip y x z ys i

  In-tail : (y z : A) (xs ys : List A) → (In z xs → In z ys) → In z (y ∷ xs) → In z (y ∷ ys)
  In-tail y z xs ys f (first e) = first e
  In-tail y z xs ys f (later i) = later (f i)

  In-place_by :
      (key : A → ℕ) (x z : A) (ys : List A)
      → (In z (place_by key x ys) → In z (x ∷ ys)) × (In z (x ∷ ys) → In z (place_by key x ys))
  unfolding place_by
  In-place_by key x z [] = (λ i. i, λ i. i)
  In-place_by key x z (y ∷ ys) = go (Bool-cases (ltb (key x) (key y))) (In-place_by key x z ys)
    where
      go :
          (ltb (key x) (key y) ≡ true) ⊎ (ltb (key x) (key y) ≡ false)
          → (In z (place_by key x ys) → In z (x ∷ ys)) × (In z (x ∷ ys) → In z (place_by key x ys))
          → (In z (place_by key x (y ∷ ys)) → In z (x ∷ y ∷ ys))
            × (In z (x ∷ y ∷ ys) → In z (place_by key x (y ∷ ys)))
      go (inr here) rest = rw (place_by, here) (λ i. i, λ i. i)
      go (inl past) (down, up) =
          rw (place_by, past)
            (
              λ i. In-swap y x z ys (In-tail y z (place_by key x ys) (x ∷ ys) down i),
              λ i. In-tail y z (x ∷ ys) (place_by key x ys) up (In-swap x y z ys i),
            )

  -- The rows are the same.
  pub newest_by-In : (key : A → ℕ) (z : A) (xs : List A) → In z (newest_by key xs) ↔ In z xs
  unfolding newest_by
  newest_by-In key z [] = (λ i. i, λ i. i)
  newest_by-In key z (x ∷ xs) =
      let (down, up) = In-place_by key x z (newest_by key xs) in
      let (less, more) = newest_by-In key z xs in
      (
        λ i. In-tail x z (newest_by key xs) xs less (down i),
        λ i. up (In-tail x z xs (newest_by key xs) more i),
      )

  -- Each row is at least as new as those after it.
  abbrev pub IsNewest : (A → ℕ) → List A → Type ℓ
  IsNewest key [] = Unit
  IsNewest key (x ∷ xs) = All (λ y. key y ≤ key x) xs × IsNewest key xs

  place_by-below :
      (key : A → ℕ) (bound : ℕ) (x : A) (ys : List A)
      → key x ≤ bound
      → All (λ y. key y ≤ bound) ys
      → All (λ y. key y ≤ bound) (place_by key x ys)
  unfolding place_by
  place_by-below key bound x [] h hs = (h, tt)
  place_by-below key bound x (y ∷ ys) h (k, hs) = ground (arith, place_by-below key bound x ys h hs)

  place_by-IsNewest :
      (key : A → ℕ) (x : A) (ys : List A) → IsNewest key ys → IsNewest key (place_by key x ys)
  unfolding place_by
  place_by-IsNewest key x [] h = (tt, tt)
  place_by-IsNewest key x (y ∷ ys) (below, h) =
      go (Bool-cases (ltb (key x) (key y))) (place_by-IsNewest key x ys h)
    where
      go :
          (ltb (key x) (key y) ≡ true) ⊎ (ltb (key x) (key y) ≡ false)
          → IsNewest key (place_by key x ys)
          → IsNewest key (place_by key x (y ∷ ys))
      go (inl past) rest =
          rw (place_by, past) (place_by-below key (key y) x ys (ground (arith, past)) below, rest)
      go (inr here) rest =
          let newer : key y ≤ key x = ground (arith, here) in
          rw (place_by, here)
            (
              (newer, All-map ys (λ z (p : key z ≤ key y). omega (arith, p, newer)) below),
              (below, h),
            )

  pub newest_by-IsNewest : (key : A → ℕ) (xs : List A) → IsNewest key (newest_by key xs)
  unfolding newest_by
  newest_by-IsNewest key [] = tt
  newest_by-IsNewest key (x ∷ xs) =
      place_by-IsNewest key x (newest_by key xs) (newest_by-IsNewest key xs)

  pub select-In :
      (p : A → Bool) (z : A) (xs : List A) → In z (select p xs) ↔ (In z xs × (p z ≡ true))
  select-In p z [] = (λ i. elim i [ ], λ (i, h). elim i [ ])
  select-In p z (x ∷ xs) = go (Bool-cases (p x)) (select-In p z xs)
    where
      kept :
          p x ≡ true
          → In z (x ∷ select p xs)
          → (In z (select p xs) → In z xs × (p z ≡ true))
          → In z (x ∷ xs) × (p z ≡ true)
      kept hit (first e) f = (first e, subst (λ a. p a ≡ true) e hit)
      kept hit (later i) f = let (j, h) = f i in (later j, h)

      found :
          In z (x ∷ xs)
          → p z ≡ true
          → (In z xs × (p z ≡ true) → In z (select p xs))
          → In z (x ∷ select p xs)
      found (first e) h g = first e
      found (later i) h g = later (g (i, h))

      away : In z (x ∷ xs) → p x ≡ false → p z ≡ true → In z xs
      away (first e) miss h = cc (h, subst (λ a. p a ≡ false) e miss)
      away (later i) miss h = i

      go :
          (p x ≡ true) ⊎ (p x ≡ false)
          → (In z (select p xs) ↔ (In z xs × (p z ≡ true)))
          → In z (select p (x ∷ xs)) ↔ (In z (x ∷ xs) × (p z ≡ true))
      go (inl hit) (f, g) = rw hit (λ i. kept hit i f, λ (i, h). found i h g)
      go (inr miss) (f, g) =
          rw miss (λ i. let (j, h) = f i in (later j, h), λ (i, h). g (away i miss h, h))
