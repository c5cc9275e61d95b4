-- ===== src/Uvc/Memory.antt =====
-- Arrays of bytes with their bounds: an access out of bounds is `none`, and so is all that follows.
use mathlib.Core.Option
use linux_tutorial.Prelude.{
  ℕ, zero, suc, ◌+◌, ◌≡◌, ap, ◌∙◌, Option, none, some, List, [], ◌∷◌, ◌++◌, arith, length,
  get_elem?,
}

infixl 5 ◌>>=◌
abbrev pub ◌>>=◌ : {A B : Type 0} → Option A → (A → Option B) → Option B
none >>= f = none
some a >>= f = f a

-- `a[k]`
abbrev pub load : List ℕ → ℕ → Option ℕ
load = get_elem?

-- `a[k] = v`
abbrev pub store : List ℕ → ℕ → ℕ → Option (List ℕ)
store [] k v = none
store (x ∷ xs) zero v = some (v ∷ xs)
store (x ∷ xs) (suc k) v = Option.map (λ ys. x ∷ ys) (store xs k v)

pub load-append : (xs ys : List ℕ) (n k : ℕ) → length xs + k ≡ n → load (xs ++ ys) n ≡ load ys k
load-append [] ys n k h = ap (load ys) (omega arith)
load-append (x ∷ xs) ys zero k h = absurd (omega arith)
load-append (x ∷ xs) ys (suc n) k h = load-append xs ys n k (omega arith)

pub store-append :
    (xs ys zs : List ℕ) (n k v : ℕ)
    → length xs + k ≡ n
    → store ys k v ≡ some zs
    → store (xs ++ ys) n v ≡ some (xs ++ zs)
store-append [] ys zs n k v h e = ap (λ m. store ys m v) (omega arith) ∙ e
store-append (x ∷ xs) ys zs zero k v h e = absurd (omega arith)
store-append (x ∷ xs) ys zs (suc n) k v h e = rw (store-append xs ys zs n k v (omega arith) e)
