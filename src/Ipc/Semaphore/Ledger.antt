-- ===== src/Ipc/Semaphore/Ledger.antt =====
-- What a thread of ipc/semaphore.c has still to report: the waits that it got and its posts.
use Prim.Native.String.{compare}
use linux_tutorial.Prelude.{
  ℕ, zero, suc, ◌-◌, ◌<◌, ◌≡◌, Bool, true, false, String, Option, Bool-cases, inl, inr, refl, arith,
  if◌then◌else◌,
}
use linux_tutorial.Prelude.Int.{ℤ}
use linux_tutorial.Prog.Logic.{Monitor, Ensures, Ensures-bind}
use linux_tutorial.Platform.{
  Call, Reply, Waited, got, etimedout, eintr, other_errno, sem_post, sem_timedwait, puts, is_zero,
  perform,
}
use linux_tutorial.Ipc.Semaphore.{producer_process_thread, report, consumer_process_thread}

abbrev pub same : String → String → Bool
same a b = elim (compare a b) [ Prim.Native.Nat.eq ↦ true | _ ↦ false ]

-- The lines that report a wait and a post.
abbrev pub get_line : String
get_line = "consumer %lu get semaphore\n"

abbrev pub post_line : String
post_line = "producer %lu post semaphore\n"

pub record Owed : Type 0 where
  pub waits : ℕ
  pub posts : ℕ

-- A line is printed for what happened only, and no more than `limit` posts are left unreported.
abbrev pub Allowed : ℕ → Owed → Call → Type 0
Allowed limit s sem_post = s.posts < limit
Allowed limit s (puts f) =
    (same f get_line ≡ true → 0 < s.waits) × (same f post_line ≡ true → 0 < s.posts)
Allowed limit s _ = Unit

abbrev pub next : Owed → (c : Call) → Reply c → Owed
next s sem_post r = if is_zero r then record s { posts = suc s.posts } else s
next s sem_timedwait got = record s { waits = suc s.waits }
next s (puts f) r = record {
  waits = if same f get_line then s.waits - 1 else s.waits;
  posts = if same f post_line then s.posts - 1 else s.posts;
}
next s _ r = s

abbrev pub ledger : ℕ → Monitor Call Reply
ledger limit = record {
  State = Owed;
  Allowed = Allowed limit;
  Documented = λ _ _ _. Unit;
  next = next;
}

abbrev pub nothing_owed : Owed
nothing_owed = record { waits = 0; posts = 0 }

report-pays :
    (w : Waited)
    → Ensures (ledger 0) (next nothing_owed sem_timedwait w) (report w) (λ t _. t ≡ nothing_owed)
unfolding report
report-pays got = ((λ _. omega arith, λ e. cc), λ _ _. refl)
report-pays etimedout = refl
report-pays eintr = refl
report-pays other_errno = ((λ e. cc, λ e. cc), λ _ _. refl)

pub consumer_process_thread-pays :
    (n : ℕ) → Ensures (ledger 0) nothing_owed (consumer_process_thread n) (λ _ _. Unit)
unfolding consumer_process_thread
consumer_process_thread-pays zero = tt
consumer_process_thread-pays (suc n) = (
  tt,
  elim [
    | true ↦ λ _. tt
    | false ↦ λ _. (
      tt,
      λ _ _. (
        tt,
        λ w _.
            Ensures-bind (ledger 0) (next nothing_owed sem_timedwait w) (report w) _ _ _
              (report-pays w) λ t _ paid. rw paid (consumer_process_thread-pays n),
      ),
    )
  ],
)

-- What a producer prints of a post.
post-pays :
    (posted : ℤ)
    → Ensures
        (ledger 1)
        (next nothing_owed sem_post posted)
        (elim (is_zero posted) [
          | false ↦ perform (puts "sem_post failed with [%d]%s\n")
          | true ↦ perform (puts "producer %lu post semaphore\n")
        ])
        (λ t _. t ≡ nothing_owed)
post-pays posted = elim (Bool-cases (is_zero posted)) [
  | inl fine ↦ rw fine ((λ e. cc, λ _. omega arith), λ _ _. refl)
  | inr failed ↦ rw failed ((λ e. cc, λ e. cc), λ _ _. refl)
]

pub producer_process_thread-pays :
    (n : ℕ) → Ensures (ledger 1) nothing_owed (producer_process_thread n) (λ _ _. Unit)
unfolding producer_process_thread
producer_process_thread-pays zero = tt
producer_process_thread-pays (suc n) = (
  tt,
  elim [
    | true ↦ λ _. tt
    | false ↦ λ _. (
      omega arith,
      λ posted _.
          Ensures-bind (ledger 1) (next nothing_owed sem_post posted) _ _ (λ t _. t ≡ nothing_owed)
            (λ _ (_ : Option (Unit {0})). Unit) (post-pays posted)
            λ t _ paid. rw paid (tt, λ _ _. producer_process_thread-pays n),
    )
  ],
)
