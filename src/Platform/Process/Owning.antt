-- ===== src/Platform/Process/Owning.antt =====
-- What each thread of a process owns, by counts: a handle in the table has one owner.
use linux_tutorial.Prelude.{
  ℕ, ◌+◌, ◌≤◌, ◌≡◌, ◌≢◌, refl, ap, ◌∙◌, true, Option, none, Bool-cases, inl, inr, List, [], ◌∷◌,
  ◌++◌, arith,
}
use linux_tutorial.Prelude.Int.{ℤ}
use linux_tutorial.Prog.Logic.{Ensures}
use linux_tutorial.Platform.{Call, Reply, Io, Session, pthread_create, is_zero}
use linux_tutorial.Platform.Resources.{Handle, fd, mem, resources}
use linux_tutorial.Platform.Resources.Counts.{count}
use linux_tutorial.Platform.Process.{
  Thread, Shared, given, new_threads, Move, first, other, Reach, here, move, signal,
}
use linux_tutorial.Platform.Process.Balances.{Sound, next-balances, next-Sound, Part-Documented}

-- All that the threads own, and all that they keep when they return.
abbrev pub owners : Handle → List Thread → ℕ
owners h [] = 0
owners h (t ∷ ts) = count h t.owns + owners h ts

abbrev pub keepers : Handle → List Thread → ℕ
keepers h [] = 0
keepers h (t ∷ ts) = count h t.keeps + keepers h ts

-- Each thread uses what it owns only, and has given up all but what it keeps when it returns.
abbrev pub Pay : List Thread → Type 0
Pay [] = Unit
Pay (t ∷ ts) = Ensures (resources true) t.owns t.program (λ u r. r ≢ none → u ≡ t.keeps) × Pay ts

abbrev pub Account : List Handle → Shared → List Thread → Type 0
Account kept s ts =
    Pay ts
    × ((h : Handle) → owners h ts ≡ count h s.table)
    × ((h : Handle) → keepers h ts ≡ count h kept)
    × Sound s.table

-- The table stays sound, whatever the threads do.
Move-Sound :
    (session : Session → Io (Option ℤ)) {s s' : Shared} {ts ts' : List Thread}
    → Move session s ts s' ts'
    → Sound s.table
    → Sound s'.table
Move-Sound session (first s c k owns keeps r ts d flag) = next-Sound s.table c r d
Move-Sound session (other t step) = Move-Sound session step

pub Reach-Sound :
    (session : Session → Io (Option ℤ)) {s : Shared} {ts : List Thread} {n : ℕ} {s' : Shared}
    {ts' : List Thread}
    → Sound s.table
    → Reach session s ts n s' ts'
    → Sound s'.table
Reach-Sound session sound here = sound
Reach-Sound session sound (signal r) = Reach-Sound session sound r
Reach-Sound session sound (move r runs step) = Move-Sound session step (Reach-Sound session sound r)

-- The session's thread gives up all that it gets.
abbrev pub Releases : (Session → Io (Option ℤ)) → Type 0
Releases session =
    (e : Session)
    → Ensures (resources true) (mem e.addr ∷ fd e.sock ∷ []) (session e) (λ t r. r ≢ none → t ≡ [])

module _ (session : Session → Io (Option ℤ)) (releases : Releases session) where
  new_threads-Pay :
      (c : Call) (r : Reply c) (ts : List Thread) → Pay ts → Pay (new_threads session c r ++ ts)
  new_threads-Pay (pthread_create e) r ts rest = elim (Bool-cases (is_zero r)) [
    | inl y ↦ rw y (releases e, rest)
    | inr n ↦ rw n rest
  ]
  new_threads-Pay _ r ts rest = rest

  new_threads-owners :
      (h : Handle) (c : Call) (r : Reply c) (ts : List Thread)
      → owners h (new_threads session c r ++ ts) ≡ count h (given c r) + owners h ts
  new_threads-owners h (pthread_create e) r ts = ground arith
  new_threads-owners h _ r ts = omega arith

  new_threads-keepers :
      (h : Handle) (c : Call) (r : Reply c) (ts : List Thread)
      → keepers h (new_threads session c r ++ ts) ≡ keepers h ts
  new_threads-keepers h (pthread_create e) r ts = ground arith
  new_threads-keepers h _ r ts = refl

  Move-keepers :
      (h : Handle) {s s' : Shared} {ts ts' : List Thread}
      → Move session s ts s' ts'
      → keepers h ts' ≡ keepers h ts
  Move-keepers h (first s c k owns keeps r ts d flag) = omega (arith, new_threads-keepers h c r ts)
  Move-keepers h (other t step) = ap (λ (n : ℕ). count h t.keeps + n) (Move-keepers h step)

  Move-Pay :
      {s s' : Shared} {ts ts' : List Thread}
      → Move session s ts s' ts'
      → ((h : Handle) → owners h ts ≤ count h s.table)
      → Pay ts
      → Pay ts'
  Move-Pay (first s c k owns keeps r ts d flag) part (pays, rest) = (
    pays.1 r (Part-Documented s.table owns c r (λ h. omega (arith, part h)) d),
    new_threads-Pay c r ts rest,
  )
  Move-Pay (other t step) part (pays, rest) =
      (pays, Move-Pay step (λ h. omega (arith, part h)) rest)

  Move-owners :
      (h : Handle) {s s' : Shared} {ts ts' : List Thread}
      → Move session s ts s' ts'
      → ((g : Handle) → owners g ts ≤ count g s.table)
      → Sound s.table
      → Pay ts
      → count h s'.table + owners h ts ≡ count h s.table + owners h ts'
  Move-owners h (first s c k owns keeps r ts d flag) part sound (pays, rest) = omega (
    arith,
    next-balances h s.table owns c r (λ g. omega (arith, part g)) sound pays.0,
    new_threads-owners h c r ts,
  )
  Move-owners h (other t step) part sound (pays, rest) =
      omega (arith, Move-owners h step (λ g. omega (arith, part g)) sound rest)

  -- The account is kept, whatever moves follow each other.
  pub Reach-Account :
      (kept : List Handle) {s : Shared} {ts : List Thread} {n : ℕ} {s' : Shared} {ts' : List Thread}
      → Account kept s ts
      → Reach session s ts n s' ts'
      → Account kept s' ts'
  Reach-Account kept h here = h
  Reach-Account kept h (signal r) = Reach-Account kept h r
  Reach-Account kept h (move r runs step) =
      let (pays, owned, keep, sound) = Reach-Account kept h r in
      (
        Move-Pay step (λ g. omega (arith, owned g)) pays,
        λ g. omega (arith, Move-owners g step (λ x. omega (arith, owned x)) sound pays, owned g),
        λ g. Move-keepers g step ∙ keep g,
        Move-Sound session step sound,
      )
