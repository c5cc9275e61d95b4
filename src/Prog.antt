-- ===== src/Prog.antt =====
-- Programs that call a platform which is not part of the repository. A program is a tree: it returns
-- or makes a call, and goes on with whatever the platform answers.
pub mod Logic
pub mod Both
use linux_tutorial.Prelude.{List, [], ◌∷◌}

pub data Prog (C : Type 0) (R : C → Type 0) (A : Type 0) : Type 0 where
  ret : A → Prog C R A
  call : (c : C) → (R c → Prog C R A) → Prog C R A

module _ {C : Type 0} {R : C → Type 0} where
  infixl 5 ◌>>=◌ ◌>>◌
  abbrev pub ◌>>=◌ : {A B : Type 0} → Prog C R A → (A → Prog C R B) → Prog C R B
  ret a >>= f = f a
  call c k >>= f = call c (λ r. k r >>= f)

  abbrev pub ◌>>◌ : {A B : Type 0} → Prog C R A → Prog C R B → Prog C R B
  m >> n = m >>= λ _. n

-- One run against a platform with a state `S`: the result, the calls in order and the last state.
module _ {C : Type 0} {R : C → Type 0} {S : Type 0} (platform : S → (c : C) → R c × S) where
  unfoldable pub run : {A : Type 0} → Prog C R A → S → A × List C × S
  run (ret a) s = (a, [], s)
  run (call c k) s =
      let (a, calls, s') = run (k (platform s c).0) (platform s c).1 in (a, c ∷ calls, s')
