-- ===== src/Prelude/Decimal.antt =====
-- `%d` of a number that is not negative, and reading it back.
use linux_tutorial.Prelude.{
  ℕ, zero, suc, ◌+◌, ◌-◌, ◌*◌, ◌/◌, ◌%◌, ◌^◌, ◌≤◌, ◌<◌, ◌≡◌, refl, ap, ◌∙◌, List, [], ◌∷◌, ◌++◌,
  arith, ◌==◌, length, Bool-cases, inl, inr, if◌then◌else◌,
}

-- At most `k` digits, the last one last, in front of `rest`.
unfoldable pub digits : ℕ → ℕ → List ℕ → List ℕ
digits zero n rest = rest
digits (suc k) n rest =
    let more = digits k (n / 10) ((b'0' + n % 10) ∷ rest) in
    if n / 10 == 0 then (b'0' + n % 10) ∷ rest else more

-- An `int` has ten digits at most.
unfoldable pub decimal : ℕ → List ℕ
unfolding digits
decimal n = digits 10 n []

unfoldable pub number : ℕ → List ℕ → ℕ
number acc [] = acc
number acc (d ∷ ds) = number (acc * 10 + (d - b'0')) ds

abbrev pub All {ℓ κ} : {A : Type ℓ} → (A → Type κ) → List A → Type κ
All P [] = Unit
All P (x ∷ xs) = P x × All P xs

pub All-append {ℓ κ} :
    {A : Type ℓ} (P : A → Type κ) (xs ys : List A) → All P xs → All P ys → All P (xs ++ ys)
All-append P [] ys hx hy = hy
All-append P (x ∷ xs) ys hx hy = (hx.0, All-append P xs ys hx.1 hy)

abbrev pub IsDigit : ℕ → Type 0
IsDigit c = (b'0' ≤ c) × (c ≤ b'9')

digits-IsDigit : (k n : ℕ) (rest : List ℕ) → All IsDigit rest → All IsDigit (digits k n rest)
unfolding digits
digits-IsDigit zero n rest h = h
digits-IsDigit (suc k) n rest h = elim (Bool-cases (n / 10 == 0)) [
  | inl e ↦ rw e (omega arith, h)
  | inr e ↦ rw e (digits-IsDigit k (n / 10) ((b'0' + n % 10) ∷ rest) (omega arith, h))
]

pub decimal-IsDigit : (n : ℕ) → All IsDigit (decimal n)
unfolding decimal
decimal-IsDigit n = digits-IsDigit 10 n [] tt

digits_pos : (ds : List ℕ) → All IsDigit ds → All (λ c. 0 < c) ds
digits_pos [] h = tt
digits_pos (d ∷ ds) h = (omega arith, digits_pos ds h.1)

-- No digit is a NUL.
pub decimal-IsText : (n : ℕ) → All (λ c. 0 < c) (decimal n)
decimal-IsText n = digits_pos (decimal n) (decimal-IsDigit n)

length-digits-le : (k n : ℕ) (rest : List ℕ) → length (digits k n rest) ≤ k + length rest
unfolding digits
length-digits-le zero n rest = omega arith
length-digits-le (suc k) n rest =
    ground (arith, length-digits-le k (n / 10) ((b'0' + n % 10) ∷ rest))

pub length-decimal-le : (n : ℕ) → length (decimal n) ≤ 10
unfolding decimal
length-decimal-le n = omega (arith, length-digits-le 10 n [])

-- 10 ^ k
abbrev pub ten_to : ℕ → ℕ
ten_to zero = 1
ten_to (suc k) = 10 * ten_to k

-- Reading the digits of `n` and then `rest` is reading `rest` from `n` on.
number-digits :
    (k n : ℕ) (rest : List ℕ) → n < ten_to k → 0 < k → number 0 (digits k n rest) ≡ number n rest
unfolding digits number
number-digits zero n rest h p = absurd (omega arith)
number-digits (suc k) n rest h p = elim (Bool-cases (n / 10 == 0)) [
  | inl e ↦ rw e (ap (λ m. number m rest) (ground arith))
  | inr e ↦ rw e (
      number-digits k (n / 10) _ (omega arith) (ground arith)
      ∙ ap (λ m. number m rest) (omega arith))
]

-- An `int` is read back.
pub number-decimal : (n : ℕ) → n < 2 ^ 31 → number 0 (decimal n) ≡ n
unfolding decimal number
number-decimal n h = number-digits 10 n [] (omega arith) (omega arith)

prints : decimal 1989 ≡ b'1' ∷ b'9' ∷ b'8' ∷ b'9' ∷ []
unfolding decimal
prints = refl
