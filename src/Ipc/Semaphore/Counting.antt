-- ===== src/Ipc/Semaphore/Counting.antt =====
-- The threads of ipc/semaphore.c side by side over the value of the semaphore.
use linux_tutorial.Prelude.{
  ℕ, zero, suc, ◌+◌, ◌-◌, ◌<◌, ◌≤◌, ◌≡◌, ap, ◌∙◌, Option, List, [], ◌∷◌, ◌++◌, refl, arith,
  replicate, if◌then◌else◌,
}
use linux_tutorial.Prog.{call}
use linux_tutorial.Prog.Logic.{Ensures}
use linux_tutorial.Platform.{Call, Reply, Io, got, sem_post, sem_timedwait, puts, is_zero}
use linux_tutorial.Ipc.Semaphore.{
  max_producer_size, max_consumer_size, producer_process_thread, consumer_process_thread,
}
use linux_tutorial.Ipc.Semaphore.Ledger.{
  Owed, Allowed, next, ledger, nothing_owed, same, get_line, post_line,
  producer_process_thread-pays, consumer_process_thread-pays,
}

-- Where a thread is, and what it has still to report; `limit` is the number of posts of that.
pub record Thread : Type 0 where
  pub limit : ℕ
  pub program : Io (Option (Unit {0}))
  pub owed : Owed

-- The value of the semaphore, and the lines that report a wait or a post.
pub record Shared : Type 0 where
  pub value : ℕ
  pub get_lines : ℕ
  pub post_lines : ℕ

-- The semaphore lets a thread through only if its value is positive.
abbrev pub Grants : Shared → (c : Call) → Reply c → Type 0
Grants s sem_timedwait got = 0 < s.value
Grants s _ r = Unit

abbrev pub after : Shared → (c : Call) → Reply c → Shared
after s sem_post r = if is_zero r then record s { value = suc s.value } else s
after s sem_timedwait got = record s { value = s.value - 1 }
after s (puts f) r = record s {
  get_lines = if same f get_line then suc s.get_lines else s.get_lines;
  post_lines = if same f post_line then suc s.post_lines else s.post_lines;
}
after s _ r = s

-- One of the threads makes its next call.
pub data Step : Shared → List Thread → Shared → List Thread → Type 0 where
  first :
      (s : Shared) (limit : ℕ) (c : Call) (k : Reply c → Io (Option (Unit {0}))) (owed : Owed)
      (r : Reply c) (ts : List Thread)
      → Grants s c r
      → Step s
          (record { limit = limit; program = call c k; owed = owed } ∷ ts)
          (after s c r)
          (record { limit = limit; program = k r; owed = next owed c r } ∷ ts)
  other :
      (t : Thread) {s s' : Shared} {ts ts' : List Thread}
      → Step s ts s' ts'
      → Step s (t ∷ ts) s' (t ∷ ts')

pub data Reach (s : Shared) (ts : List Thread) : Shared → List Thread → Type 0 where
  here : Reach s ts s ts
  more :
      {s' s'' : Shared} {ts' ts'' : List Thread}
      → Reach s ts s' ts'
      → Step s' ts' s'' ts''
      → Reach s ts s'' ts''

waits_of : List Thread → ℕ
waits_of [] = 0
waits_of (t ∷ ts) = t.owed.waits + waits_of ts

posts_of : List Thread → ℕ
posts_of [] = 0
posts_of (t ∷ ts) = t.owed.posts + posts_of ts

limits_of : List Thread → ℕ
limits_of [] = 0
limits_of (t ∷ ts) = t.limit + limits_of ts

-- Each thread goes on to report what it has to.
abbrev Pay : List Thread → Type 0
Pay [] = Unit
Pay (t ∷ ts) =
    Ensures (ledger t.limit) t.owed t.program (λ _ _. Unit) × (t.owed.posts ≤ t.limit) × Pay ts

-- A call changes both sides of the account alike.
next-balances :
    (s : Shared) (limit : ℕ) (o : Owed) (c : Call) (r : Reply c)
    → Grants s c r
    → Allowed limit o c
    → (after s c r).value + (next o c r).waits + (after s c r).get_lines + (o.posts + s.post_lines)
      ≡ s.value + o.waits + s.get_lines + ((next o c r).posts + (after s c r).post_lines)
next-balances s limit o sem_post r g h = ground arith
next-balances s limit o sem_timedwait got g h = omega (arith, g)
next-balances s limit o (puts f) r g h = ground (arith, h)
next-balances s limit o _ r g h = refl

next-le :
    (limit : ℕ) (o : Owed) (c : Call) (r : Reply c)
    → Allowed limit o c
    → o.posts ≤ limit
    → (next o c r).posts ≤ limit
next-le limit o sem_post r h e = ground (arith, h)
next-le limit o sem_timedwait got h e = e
next-le limit o (puts f) r h e = ground (arith, e)
next-le limit o _ r h e = e

Step-Pay : {s s' : Shared} {ts ts' : List Thread} → Step s ts s' ts' → Pay ts → Pay ts'
Step-Pay (first s limit c k owed r ts g) (pays, few, rest) =
    (pays.1 r tt, next-le limit owed c r pays.0 few, rest)
Step-Pay (other t step) (pays, few, rest) = (pays, few, Step-Pay step rest)

Step-limits :
    {s s' : Shared} {ts ts' : List Thread} → Step s ts s' ts' → limits_of ts' ≡ limits_of ts
unfolding limits_of
Step-limits (first s limit c k owed r ts g) = refl
Step-limits (other t step) = ap (λ (n : ℕ). t.limit + n) (Step-limits step)

Step-balances :
    {s s' : Shared} {ts ts' : List Thread}
    → Step s ts s' ts'
    → Pay ts
    → s'.value + waits_of ts' + s'.get_lines + (posts_of ts + s.post_lines)
      ≡ s.value + waits_of ts + s.get_lines + (posts_of ts' + s'.post_lines)
unfolding waits_of posts_of
Step-balances (first s limit c k owed r ts g) (pays, few, rest) =
    omega (arith, next-balances s limit owed c r g pays.0)
Step-balances (other t step) (pays, few, rest) = omega (arith, Step-balances step rest)

-- The account that every run keeps, from `n` on.
abbrev Account : ℕ → ℕ → Shared → List Thread → Type 0
Account n limits s ts =
    Pay ts
    × (limits_of ts ≡ limits)
    × (s.value + waits_of ts + s.get_lines ≡ n + posts_of ts + s.post_lines)

Reach-Account :
    (n limits : ℕ) {s : Shared} {ts : List Thread} {s' : Shared} {ts' : List Thread}
    → Account n limits s ts
    → Reach s ts s' ts'
    → Account n limits s' ts'
Reach-Account n limits h here = h
Reach-Account n limits h (more r step) =
    let (pays, limited, balance) = Reach-Account n limits h r in
    (
      Step-Pay step pays,
      Step-limits step ∙ limited,
      omega (arith, Step-balances step pays, balance),
    )

posts-le : (ts : List Thread) → Pay ts → posts_of ts ≤ limits_of ts
unfolding posts_of limits_of
posts-le [] h = omega arith
posts-le (t ∷ ts) h = omega (arith, h.1, posts-le ts h.2)

-- After `sem_init`, with value 1, and the threads at their start, with rounds `n` and `m` left.
abbrev pub producers : ℕ → List Thread
producers n =
    replicate max_producer_size
      (record { limit = 1; program = producer_process_thread n; owed = nothing_owed })

abbrev pub consumers : ℕ → List Thread
consumers m =
    replicate max_consumer_size
      (record { limit = 0; program = consumer_process_thread m; owed = nothing_owed })

abbrev pub begun : Shared
begun = record { value = 1; get_lines = 0; post_lines = 0 }

replicate-Pay :
    (k : ℕ) (t : Thread) (ts : List Thread)
    → Ensures (ledger t.limit) t.owed t.program (λ _ _. Unit)
    → t.owed.posts ≤ t.limit
    → Pay ts
    → Pay (replicate k t ++ ts)
replicate-Pay zero t ts pays few rest = rest
replicate-Pay (suc k) t ts pays few rest = (pays, few, replicate-Pay k t ts pays few rest)

started-Account : (n m : ℕ) → Account 1 3 begun (producers n ++ consumers m)
unfolding waits_of posts_of limits_of
started-Account n m = (
  replicate-Pay max_producer_size
      (record { limit = 1; program = producer_process_thread n; owed = nothing_owed }) (consumers m)
      (producer_process_thread-pays n) (omega arith)
      (replicate-Pay max_consumer_size
        (record { limit = 0; program = consumer_process_thread m; owed = nothing_owed }) []
        (consumer_process_thread-pays m) (omega arith) tt),
  refl,
  refl,
)

-- With 3 producers and 5 consumers begun on the value 1, however their steps follow each other and
-- whichever calls fail, the consumers report at most one wait for each post that a producer has
-- reported, one for the first value, and one for each producer, which may still have to report a post.
pub get_lines-le :
    (n m : ℕ) {s : Shared} {ts : List Thread}
    → Reach begun (producers n ++ consumers m) s ts
    → s.get_lines ≤ s.post_lines + 1 + max_producer_size
get_lines-le n m {s} {ts} reached =
    let (pays, limited, balance) = Reach-Account 1 3 (started-Account n m) reached in
    omega (arith, posts-le ts pays, limited, balance)
