-- ===== src/Platform/Resources/Counts.antt =====
-- How often a handle stands in a list: two lists with the same counts own the same.
use linux_tutorial.Prelude.{
  ℕ, ◌+◌, ◌<◌, ◌≤◌, ◌≡◌, refl, ap, Bool, true, false, Bool-cases, inl, inr, List, [], ◌∷◌,
  if◌then◌else◌, arith,
}
use linux_tutorial.Prelude.Int.{ℤ}
use linux_tutorial.Platform.{eq_ℤ, is_negative, is_null}
use linux_tutorial.Platform.Resources.{Handle, fd, mem, ctx, ssl, cert, same, holds, release}

abbrev pub one_if : Bool → ℕ
one_if true = 1
one_if false = 0

abbrev pub count : Handle → List Handle → ℕ
count h [] = 0
count h (g ∷ gs) = one_if (same h g) + count h gs

abbrev pub SameHandles : List Handle → List Handle → Type 0
SameHandles s t = (h : Handle) → count h s ≡ count h t

-- A descriptor is not negative, and an allocation is not NULL.
abbrev pub capacity : Handle → ℕ
capacity (fd f) = one_if (if is_negative f then false else true)
capacity (mem p) = one_if (if is_null p then false else true)
capacity (ctx p) = one_if (if is_null p then false else true)
capacity (ssl p) = one_if (if is_null p then false else true)
capacity (cert p) = one_if (if is_null p then false else true)

eq_ℤ→≡ : (a b : ℤ) → eq_ℤ a b ≡ true → a ≡ b
eq_ℤ→≡ a b h = ground arith

pub same→≡ : (g h : Handle) → same g h ≡ true → g ≡ h
same→≡ (fd a) (fd b) e = ap fd (eq_ℤ→≡ a b e)
same→≡ (mem a) (mem b) e = ground arith
same→≡ (ctx a) (ctx b) e = ground arith
same→≡ (ssl a) (ssl b) e = ground arith
same→≡ (cert a) (cert b) e = ground arith
same→≡ _ _ e = absurd (ground arith)

pub same_refl : (h : Handle) → same h h ≡ true
same_refl (fd a) = ground arith
same_refl (mem a) = ground arith
same_refl (ctx a) = ground arith
same_refl (ssl a) = ground arith
same_refl (cert a) = ground arith

-- Whether a list holds a handle, by its count.
pub holds→count : (h : Handle) (s : List Handle) → holds h s ≡ true → 0 < count h s
holds→count h [] e = absurd (ground arith)
holds→count h (g ∷ gs) e = ground (arith, holds→count h gs)

pub count→holds : (h : Handle) (s : List Handle) → 0 < count h s → holds h s ≡ true
count→holds h [] e = absurd (omega arith)
count→holds h (g ∷ gs) e = ground (arith, count→holds h gs)

-- What a list that holds a handle loses with it.
pub count-release :
    (h g : Handle) (s : List Handle)
    → 0 < count g s
    → count h (release g s) + one_if (same h g) ≡ count h s
count-release h g [] e = absurd (omega arith)
count-release h g (x ∷ s) e = elim (Bool-cases (same g x)) [
  | inl y ↦ rw (y, same→≡ g x y) (ground arith)
  | inr n ↦ rw n (ground (arith, e, count-release h g s))
]

pub release_missing : (g : Handle) (s : List Handle) → count g s ≡ 0 → release g s ≡ s
release_missing g [] e = refl
release_missing g (x ∷ s) e = elim (Bool-cases (same g x)) [
  | inl y ↦ absurd (ground arith)
  | inr n ↦ rw n (ap (λ t. x ∷ t) (release_missing g s (ground arith)))
]

pub release-le : (h g : Handle) (s : List Handle) → count h (release g s) ≤ count h s
release-le h g [] = omega arith
release-le h g (x ∷ s) = ground (arith, release-le h g s)

pub holds→missing : (h : Handle) (s : List Handle) → holds h s ≡ false → count h s ≡ 0
holds→missing h [] e = refl
holds→missing h (g ∷ gs) e = ground (arith, holds→missing h gs)
