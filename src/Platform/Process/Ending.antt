-- ===== src/Platform/Process/Ending.antt =====
-- A process whose threads have rounds enough: none comes to the end of them.
use linux_tutorial.Prelude.{
  ℕ, suc, ◌+◌, ◌≤◌, ◌≡◌, ◌≢◌, refl, true, false, Bool, Bool-cases, inl, inr, Option, none, some,
  List, [], ◌∷◌, ◌++◌, ◌||◌, arith,
}
use linux_tutorial.Prelude.Int.{ℤ}
use linux_tutorial.Prog.{ret, call}
use linux_tutorial.Prog.Logic.{Ensures}
use linux_tutorial.Platform.{Call, Reply, Io, Session, pthread_create, is_zero}
use linux_tutorial.Platform.Process.{
  Thread, Shared, new_threads, Move, first, other, Reach, here, move, signal,
}
use linux_tutorial.Platform.Process.Rounds.{at_most}

-- A thread that makes no more than `most` calls returns a result.
abbrev pub Lasts : ℕ → ℕ → Io (Option ℤ) → Type 0
Lasts most made p = Ensures (at_most most) made p (λ _ r. r ≢ none)

-- No thread has made more calls than the process.
abbrev pub AllLast : ℕ → ℕ → List Thread → Type 0
AllLast most moves [] = Unit
AllLast most moves (t ∷ ts) =
    (made : ℕ) × (made ≤ moves) × Lasts most made t.program × AllLast most moves ts

AllLast-mono :
    (most moves more : ℕ) (ts : List Thread)
    → moves ≤ more
    → AllLast most moves ts
    → AllLast most more ts
AllLast-mono most moves more [] h all = tt
AllLast-mono most moves more (t ∷ ts) h (made, le, lasts, rest) =
    (made, omega arith, lasts, AllLast-mono most moves more ts h rest)

-- A loop has come to the end of its rounds.
abbrev pub ran_out : Io (Option ℤ) → Bool
ran_out (ret none) = true
ran_out _ = false

abbrev pub any_ran_out : List Thread → Bool
any_ran_out [] = false
any_ran_out (t ∷ ts) = ran_out t.program || any_ran_out ts

Lasts→ran_out : (most made : ℕ) (p : Io (Option ℤ)) → Lasts most made p → ran_out p ≡ false
Lasts→ran_out most made (ret none) lasts = absurd (lasts refl)
Lasts→ran_out most made (ret (some r)) lasts = refl
Lasts→ran_out most made (call c k) lasts = refl

pub AllLast→any_ran_out :
    (most moves : ℕ) (ts : List Thread) → AllLast most moves ts → any_ran_out ts ≡ false
AllLast→any_ran_out most moves [] all = refl
AllLast→any_ran_out most moves (t ∷ ts) (made, le, lasts, rest) =
    rw (Lasts→ran_out most made t.program lasts, AllLast→any_ran_out most moves ts rest) refl

module _ (most : ℕ) (session : Session → Io (Option ℤ))
    (session-lasts : (e : Session) → Lasts most 0 (session e)) where
  new_threads-AllLast :
      (moves : ℕ) (c : Call) (r : Reply c) (ts : List Thread)
      → AllLast most moves ts
      → AllLast most moves (new_threads session c r ++ ts)
  new_threads-AllLast moves (pthread_create e) r ts rest = elim (Bool-cases (is_zero r)) [
    | inl y ↦ rw y (0, omega arith, session-lasts e, rest)
    | inr n ↦ rw n rest
  ]
  new_threads-AllLast moves _ r ts rest = rest

  Move-AllLast :
      (moves : ℕ) {s s' : Shared} {ts ts' : List Thread}
      → suc moves ≤ most
      → Move session s ts s' ts'
      → AllLast most moves ts
      → AllLast most (suc moves) ts'
  Move-AllLast moves few (first s c k owns keeps r ts d flag) (made, le, lasts, rest) = (
    suc made,
    omega arith,
    lasts.1 r (omega arith),
    new_threads-AllLast (suc moves) c r ts
        (AllLast-mono most moves (suc moves) ts (omega arith) rest),
  )
  Move-AllLast moves few (other t step) (made, le, lasts, rest) =
      (made, omega arith, lasts, Move-AllLast moves few step rest)

  pub Reach-AllLast :
      (moves : ℕ) {s : Shared} {ts : List Thread} {n : ℕ} {s' : Shared} {ts' : List Thread}
      → n + moves ≤ most
      → AllLast most moves ts
      → Reach session s ts n s' ts'
      → AllLast most (n + moves) ts'
  Reach-AllLast moves {s} {ts} few h here = AllLast-mono most moves (0 + moves) ts (omega arith) h
  Reach-AllLast moves {s} {ts} few h (signal r) = Reach-AllLast moves few h r
  Reach-AllLast moves {s} {ts} few h (move {n} {s'} {s''} {ts'} {ts''} r runs step) =
      AllLast-mono most (suc (n + moves)) (suc n + moves) ts'' (omega arith)
        (Move-AllLast (n + moves) (omega arith) step (Reach-AllLast moves (omega arith) h r))
