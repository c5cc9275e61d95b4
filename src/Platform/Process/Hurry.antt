-- ===== src/Platform/Process/Hurry.antt =====
-- How many calls the threads of a process still make once the quit flag is set.
use linux_tutorial.Prelude.{
  ℕ, suc, ◌+◌, ◌*◌, ◌-◌, ◌≤◌, ◌≡◌, refl, Bool, true, false, Bool-cases, inl, inr, Option, List, [],
  ◌∷◌, ◌++◌, length, arith,
}
use linux_tutorial.Prelude.Int.{ℤ}
use linux_tutorial.Prog.Logic.{Ensures}
use linux_tutorial.Platform.{Call, Reply, Io, Session, app_quit, pthread_create, set_quit, is_zero}
use linux_tutorial.Platform.Process.Prompt.{price, spend, prompt}
use linux_tutorial.Platform.Process.{
  Thread, Shared, Flag, new_threads, flag_after, Move, first, other, Reach, here, move, signal,
}

-- The flag stays set.
flag_stays : (c : Call) → flag_after true c ≡ true
flag_stays set_quit = refl
flag_stays _ = refl

pub Move-flag :
    (session : Session → Io (Option ℤ)) {s s' : Shared} {ts ts' : List Thread}
    → Move session s ts s' ts'
    → s.quit ≡ true
    → s'.quit ≡ true
Move-flag session (first s c k owns keeps r ts d flag) e = rw e (flag_stays c)
Move-flag session (other t step) e = Move-flag session step e

module _ (session_cost budget : ℕ) where
  price-positive : (c : Call) → 1 ≤ price session_cost c
  price-positive (pthread_create e) = omega arith
  price-positive _ = omega arith

  spend-le :
      (left : ℕ) (c : Call) (r : Reply c)
      → left ≤ budget
      → spend session_cost budget left c r ≤ budget
  spend-le left app_quit true h = omega arith
  spend-le left app_quit false h = omega arith
  spend-le left (pthread_create e) r h = omega arith
  spend-le left _ r h = omega arith

  -- With the flag set a call is paid for.
  spend-Flag :
      (left : ℕ) (q : Bool) (c : Call) (r : Reply c)
      → q ≡ true
      → Flag q c r
      → price session_cost c ≤ left
      → spend session_cost budget left c r + price session_cost c ≤ left
  spend-Flag left q app_quit true e flag h = omega arith
  spend-Flag left q app_quit false e flag h = absurd (ground arith)
  spend-Flag left q (pthread_create x) r e flag h = omega arith
  spend-Flag left q _ r e flag h = omega arith

  -- What each thread has left to spend, at most the budget.
  abbrev pub AllPrompt : List Thread → Type 0
  AllPrompt [] = Unit
  AllPrompt (t ∷ ts) =
      (own : ℕ) × (own ≤ budget)
      × Ensures (prompt session_cost budget) own t.program (λ _ _. Unit)
      × AllPrompt ts

  -- The threads have `total` calls left to make between them.
  abbrev Hurry : ℕ → List Thread → Type 0
  Hurry total [] = Unit
  Hurry total (t ∷ ts) =
      (own : ℕ) × (rest : ℕ) × (own + rest ≤ total)
      × Ensures (prompt session_cost budget) own t.program (λ _ _. Unit)
      × Hurry rest ts

  AllPrompt-Hurry : (ts : List Thread) → AllPrompt ts → Hurry (budget * length ts) ts
  AllPrompt-Hurry [] h = tt
  AllPrompt-Hurry (t ∷ ts) (own, le, pays, rest) =
      (own, budget * length ts, omega arith, pays, AllPrompt-Hurry ts rest)

  Hurry-mono : (total more : ℕ) (ts : List Thread) → total ≤ more → Hurry total ts → Hurry more ts
  Hurry-mono total more [] h hurry = tt
  Hurry-mono total more (t ∷ ts) h (own, rest, sum, pays, hurry) =
      (own, rest, omega arith, pays, hurry)

  module _ (session : Session → Io (Option ℤ)) (cheap : session_cost ≤ budget)
      (session-pays : (e : Session)
        → Ensures (prompt session_cost budget) session_cost (session e) (λ _ _. Unit)) where
    new_threads-AllPrompt :
        (c : Call) (r : Reply c) (ts : List Thread)
        → AllPrompt ts
        → AllPrompt (new_threads session c r ++ ts)
    new_threads-AllPrompt (pthread_create e) r ts rest = elim (Bool-cases (is_zero r)) [
      | inl y ↦ rw y (session_cost, cheap, session-pays e, rest)
      | inr n ↦ rw n rest
    ]
    new_threads-AllPrompt _ r ts rest = rest

    Move-AllPrompt :
        {s s' : Shared} {ts ts' : List Thread}
        → Move session s ts s' ts'
        → AllPrompt ts
        → AllPrompt ts'
    Move-AllPrompt (first s c k owns keeps r ts d flag) (own, le, pays, rest) = (
      spend session_cost budget own c r,
      spend-le own c r le,
      pays.1 r tt,
      new_threads-AllPrompt c r ts rest,
    )
    Move-AllPrompt (other t step) (own, le, pays, rest) = (own, le, pays, Move-AllPrompt step rest)

    Reach-AllPrompt :
        {s : Shared} {ts : List Thread} {n : ℕ} {s' : Shared} {ts' : List Thread}
        → Reach session s ts n s' ts'
        → AllPrompt ts
        → AllPrompt ts'
    Reach-AllPrompt here h = h
    Reach-AllPrompt (signal r) h = Reach-AllPrompt r h
    Reach-AllPrompt (move r runs step) h = Move-AllPrompt step (Reach-AllPrompt r h)

    new_threads-Hurry :
        (c : Call) (r : Reply c) (ts : List Thread) (total bound : ℕ)
        → total + price session_cost c ≤ suc bound
        → Hurry total ts
        → Hurry bound (new_threads session c r ++ ts)
    new_threads-Hurry (pthread_create e) r ts total bound h rest = elim (Bool-cases (is_zero r)) [
      | inl y ↦ rw y (session_cost, total, omega arith, session-pays e, rest)
      | inr n ↦ rw n (Hurry-mono total bound ts (omega arith) rest)
    ]
    new_threads-Hurry _ r ts total bound h rest = Hurry-mono total bound ts (omega arith) rest

    -- A move is paid for.
    Move-Hurry :
        (total : ℕ) {s s' : Shared} {ts ts' : List Thread}
        → Move session s ts s' ts'
        → s.quit ≡ true
        → Hurry total ts
        → (left : ℕ) × (suc left ≤ total) × Hurry left ts'
    Move-Hurry total (first s c k owns keeps r ts d flag) e (own, rest, sum, pays, hurry) =
        let paid = spend-Flag own s.quit c r e flag pays.0 in
        (
          total - 1,
          omega (arith, paid, price-positive c),
          (
            spend session_cost budget own c r,
            rest + price session_cost c - 1,
            omega (arith, paid, price-positive c),
            pays.1 r tt,
            new_threads-Hurry c r ts rest (rest + price session_cost c - 1)
                (omega (arith, price-positive c)) hurry,
          ),
        )
    Move-Hurry total (other t step) e (own, rest, sum, pays, hurry) =
        let (left, spent, hurry') = Move-Hurry rest step e hurry in
        (total - 1, omega arith, (own, left, omega arith, pays, hurry'))

    -- No more calls are made than are paid for.
    Reach-Hurry :
        (total : ℕ) {s : Shared} {ts : List Thread} {n : ℕ} {s' : Shared} {ts' : List Thread}
        → s.quit ≡ true
        → Hurry total ts
        → Reach session s ts n s' ts'
        → (left : ℕ) × (n + left ≤ total) × Hurry left ts' × (s'.quit ≡ true)
    Reach-Hurry total e h here = (total, omega arith, h, e)
    Reach-Hurry total e h (signal r) =
        let (left, spent, hurry, flag) = Reach-Hurry total e h r in (left, spent, hurry, refl)
    Reach-Hurry total e h (move r runs step) =
        let (left, spent, hurry, flag) = Reach-Hurry total e h r in
        let (left', spent', hurry') = Move-Hurry left step flag hurry in
        (left', omega arith, hurry', Move-flag session step flag)

    -- Once the flag is set the threads make no more calls than their budgets allow.
    pub Reach-stops :
        {s : Shared} {ts : List Thread} {n : ℕ} {s' : Shared} {ts' : List Thread} {n' : ℕ}
        {s'' : Shared} {ts'' : List Thread}
        → AllPrompt ts
        → Reach session s ts n s' ts'
        → s'.quit ≡ true
        → Reach session s' ts' n' s'' ts''
        → n' ≤ budget * length ts'
    Reach-stops {s} {ts} {n} {s'} {ts'} all reached e later =
        let hurry = AllPrompt-Hurry ts' (Reach-AllPrompt reached all) in
        let (left, spent, hurry', flag) = Reach-Hurry (budget * length ts') e hurry later in
        omega arith
