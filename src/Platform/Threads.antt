-- ===== src/Platform/Threads.antt =====
-- The threads that use a semaphore: it is destroyed when none is left, and each is joined once.
use linux_tutorial.Prelude.{
  ℕ, suc, ◌≤◌, ◌≡◌, Bool, true, false, List, [], ◌∷◌, ◌==◌, ◌&&◌, if◌then◌else◌,
}
use linux_tutorial.Prelude.Int.{pos}
use linux_tutorial.Prog.Logic.{Monitor}
use linux_tutorial.Platform.{
  Call, Reply, Worker, producer, consumer, sem_init, sem_destroy, thread_create, thread_join,
  getchar, is_zero,
}

-- The semaphore is there, the threads that were started and not joined, and the keys read.
pub record Running : Type 0 where
  pub alive : Bool
  pub threads : List (Worker × ℕ)
  pub keys : ℕ

abbrev pub same_worker : Worker → Worker → Bool
same_worker producer producer = true
same_worker consumer consumer = true
same_worker _ _ = false

abbrev pub runs : Worker → ℕ → List (Worker × ℕ) → Bool
runs w i [] = false
runs w i (t ∷ ts) = if same_worker w t.0 && i == t.1 then true else runs w i ts

abbrev pub joined : Worker → ℕ → List (Worker × ℕ) → List (Worker × ℕ)
joined w i [] = []
joined w i (t ∷ ts) = if same_worker w t.0 && i == t.1 then ts else t ∷ joined w i ts

-- A thread starts on a semaphore that is there; one that is joined was started, and not yet joined.
abbrev pub Allowed : Running → Call → Type 0
Allowed s (thread_create _ _) = s.alive ≡ true
Allowed s (thread_join w i) = runs w i s.threads ≡ true
Allowed s sem_destroy = (s.alive ≡ true) × (s.threads ≡ [])
Allowed s _ = Unit

-- Every thread starts, and key number `m` at the latest is a q.
abbrev pub Documented : ℕ → Running → (c : Call) → Reply c → Type 0
Documented m s (thread_create _ _) r = is_zero r ≡ true
Documented m s getchar r = m ≤ s.keys → r ≡ pos b'q'
Documented m s _ _ = Unit

abbrev pub next : Running → (c : Call) → Reply c → Running
next s (sem_init _) r = record s { alive = is_zero r }
next s sem_destroy r = record s { alive = false }
next s (thread_create w i) r = if is_zero r then record s { threads = (w, i) ∷ s.threads } else s
next s (thread_join w i) r = record s { threads = joined w i s.threads }
next s getchar r = record s { keys = suc s.keys }
next s _ _ = s

abbrev pub threads_start : ℕ → Monitor Call Reply
threads_start m = record {
  State = Running;
  Allowed = Allowed;
  Documented = Documented m;
  next = next;
}

-- Before `main`.
abbrev pub nothing_runs : Running
nothing_runs = record { alive = false; threads = []; keys = 0 }

-- The semaphore is set up, the first producer starts, and no other thread does.
abbrev pub FirstOnly : (c : Call) → Reply c → Type 0
FirstOnly (sem_init _) r = is_zero r ≡ true
FirstOnly (thread_create _ i) r = is_zero r ≡ (i == 0)
FirstOnly _ _ = Unit

-- The semaphore is destroyed while the first producer runs.
abbrev pub DestroysInUse : Running → Call → Type 0
DestroysInUse s sem_destroy = s.threads ≡ (producer, 0) ∷ []
DestroysInUse s _ = Unit

abbrev pub first_starts : Monitor Call Reply
first_starts = record {
  State = Running;
  Allowed = DestroysInUse;
  Documented = λ _. FirstOnly;
  next = next;
}
