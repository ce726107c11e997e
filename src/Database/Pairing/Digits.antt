-- ===== src/Database/Pairing/Digits.antt =====
-- `fmt.Sprintf("%06d", n)` of internal/database/agent_repository.go, for the numbers that
-- `rand.Int(rand.Reader, big.NewInt(1_000_000))` gives.
use Prim.Native.Char.{Char, code}
use echoear_cloud.Base.{
  ℕ, String, ◌≡◌, ◌≢◌, ◌<◌, ◌+◌, ◌-◌, ◌*◌, ◌/◌, ◌%◌, refl, sym, ap, ◌∙◌, arith, ◌==◌, if◌then◌else◌,
  if-cases,
}

unfoldable pub digit : ℕ → Char
digit d =
    if d == 0
    then "0"
    else if d == 1
    then "1"
    else if d == 2
    then "2"
    else if d == 3
    then "3"
    else if d == 4
    then "4"
    else if d == 5
    then "5"
    else if d == 6
    then "6"
    else if d == 7
    then "7"
    else if d == 8
    then "8"
    else "9"

unfoldable pub six_digits : ℕ → String
unfolding digit
six_digits n = String.◌∷◌ (digit (n / 100000 % 10)) (
    String.◌∷◌ (digit (n / 10000 % 10)) (
      String.◌∷◌ (digit (n / 1000 % 10)) (
        String.◌∷◌ (digit (n / 100 % 10))
          (String.◌∷◌ (digit (n / 10 % 10)) (String.◌∷◌ (digit (n % 10)) "")))))

-- The number that a text of digits writes.
abbrev pub read_from : ℕ → String → ℕ
read_from acc String.[] = acc
read_from acc (String.◌∷◌ c s) = read_from (acc * 10 + (code c - 48)) s

code-if :
    (d k : ℕ) (c rest : Char)
    → code c - 48 ≡ k
    → (d ≢ k → code rest - 48 ≡ d)
    → code (if d == k then c else rest) - 48 ≡ d
code-if d k c rest here below =
    if-cases (λ (x : Char). code x - 48 ≡ d) (d == k) c rest (λ same. ground arith)
      (λ other. below (ground arith))

code-digit : (d : ℕ) → d < 10 → code (digit d) - 48 ≡ d
unfolding digit
code-digit d h = code-if d 0 "0" _ refl λ n0. code-if d 1 "1" _ refl λ n1.
    code-if d 2 "2" _ refl λ n2. code-if d 3 "3" _ refl λ n3. code-if d 4 "4" _ refl λ n4.
      code-if d 5 "5" _ refl λ n5.
        code-if d 6 "6" _ refl
          λ n6. code-if d 7 "7" _ refl λ n7. code-if d 8 "8" _ refl λ n8. omega arith

pub read-six_digits : (n : ℕ) → n < 1000000 → read_from 0 (six_digits n) ≡ n
unfolding six_digits
read-six_digits n h = omega (
  arith,
  code-digit (n / 100000 % 10) (omega arith),
  code-digit (n / 10000 % 10) (omega arith),
  code-digit (n / 1000 % 10) (omega arith),
  code-digit (n / 100 % 10) (omega arith),
  code-digit (n / 10 % 10) (omega arith),
  code-digit (n % 10) (omega arith),
)

-- Different numbers below a million are printed as different codes, since a code reads back as its number.
pub six_digits-ne : (n m : ℕ) → n < 1000000 → m < 1000000 → n ≢ m → six_digits n ≢ six_digits m
six_digits-ne n m hn hm ne e =
    ne (sym (read-six_digits n hn) ∙ ap (read_from 0) e ∙ read-six_digits m hm)
