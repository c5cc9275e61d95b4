-- ===== src/Prog/Logic.antt =====
-- Reasoning about every run at once. A monitor follows the calls: it says which calls are allowed,
-- what the platform documents of its answers, and what it remembers.
use linux_tutorial.Prelude.{◌≡◌, refl, Bool, true, false}
use linux_tutorial.Prog.{Prog, ret, call, ◌>>=◌, run}

pub record Monitor (C : Type 0) (R : C → Type 0) : Type 1 where
  pub State : Type 0
  pub Allowed : State → C → Type 0
  pub Documented : State → (c : C) → R c → Type 0
  pub next : State → (c : C) → R c → State

module _ {C : Type 0} {R : C → Type 0} (M : Monitor C R) where
  -- Whatever documented answers come, every call is allowed and the end satisfies `Q`.
  abbrev pub Ensures : {A : Type 0} → M.State → Prog C R A → (M.State → A → Type 0) → Type 0
  Ensures s (ret a) Q = Q s a
  Ensures s (call c k) Q =
      M.Allowed s c × ((r : R c) → M.Documented s c r → Ensures (M.next s c r) (k r) Q)

module _ {C : Type 0} {R : C → Type 0} (M : Monitor C R) {A : Type 0} where
  -- A sequence ensures what its second part ensures after the first.
  pub Ensures-bind :
      {B : Type 0} (s : M.State) (p : Prog C R A) (f : A → Prog C R B) (Q : M.State → A → Type 0)
      (Q' : M.State → B → Type 0)
      → Ensures M s p Q
      → ((t : M.State) (a : A) → Q t a → Ensures M t (f a) Q')
      → Ensures M s (p >>= f) Q'
  Ensures-bind s (ret a) f Q Q' h next = next s a h
  Ensures-bind s (call c k) f Q Q' h next =
      (h.0, λ r d. Ensures-bind (M.next s c r) (k r) f Q Q' (h.1 r d) next)

  pub Ensures_mono :
      (s : M.State) (p : Prog C R A) (Q Q' : M.State → A → Type 0)
      → Ensures M s p Q
      → ((t : M.State) (a : A) → Q t a → Q' t a)
      → Ensures M s p Q'
  Ensures_mono s (ret a) Q Q' h weaken = weaken s a h
  Ensures_mono s (call c k) Q Q' h weaken =
      (h.0, λ r d. Ensures_mono (M.next s c r) (k r) Q Q' (h.1 r d) weaken)

-- What is left of a monitor's state after a list of answered calls cannot be said from the calls
-- alone, so a platform is tied to a monitor by a relation that its steps keep.
module _ {C : Type 0} {R : C → Type 0} (M : Monitor C R) {S : Type 0}
    (platform : S → (c : C) → R c × S) (Tied : M.State → S → Type 0) where
  pub Keeps : Type 0
  Keeps =
      (m : M.State) (s : S) (c : C)
      → Tied m s
      → M.Allowed m c
      → M.Documented m c (platform s c).0 × Tied (M.next m c (platform s c).0) (platform s c).1

  -- On a platform that keeps to its documents a run ends as `Ensures` says.
  pub run-Ensures :
      Keeps
      → {A : Type 0} (p : Prog C R A) (m : M.State) (s : S) (Q : M.State → A → Type 0) → Tied m s
      → Ensures M m p Q
      → (m' : M.State) × Q m' (run platform p s).0 × Tied m' (run platform p s).2
  unfolding Keeps run
  run-Ensures keeps (ret a) m s Q t h = (m, h, t)
  run-Ensures keeps (call c k) m s Q t h =
      let (d, t') = keeps m s c t h.0 in
      run-Ensures keeps (k (platform s c).0) _ (platform s c).1 Q t' (h.1 _ d)

module _ {C : Type 0} {R : C → Type 0} (M : Monitor C R) {A : Type 0} where
  -- A test, by its two branches.
  pub Ensures-elim :
      (b : Bool) (p q : Prog C R A) (s : M.State) (Q : M.State → A → Type 0)
      → (b ≡ true → Ensures M s p Q)
      → (b ≡ false → Ensures M s q Q)
      → Ensures M s (elim b [ true ↦ p | false ↦ q ]) Q
  Ensures-elim true p q s Q yea nay = yea refl
  Ensures-elim false p q s Q yea nay = nay refl
