-- ===== src/Ipc/Semaphore/Working.antt =====
-- When the threads of ipc/semaphore.c stop.
use linux_tutorial.Prelude.{
  ℕ, zero, suc, ◌+◌, ◌<◌, ◌≤◌, ap, true, false, none, ◌≡◌, ◌≢◌, refl, arith,
}
use linux_tutorial.Prog.Logic.{Ensures, Ensures-bind, Ensures-elim}
use linux_tutorial.Platform.{Waited, got, etimedout, eintr, other_errno, is_zero}
use linux_tutorial.Platform.Deadline.{deadline, raised}
use linux_tutorial.Ipc.Semaphore.{producer_process_thread, report, consumer_process_thread}

producer_process_thread-returns :
    (n s m : ℕ)
    → m < s + n
    → 0 < n
    → Ensures (deadline m) s (producer_process_thread n) (λ t r. r ≢ none)
unfolding producer_process_thread
producer_process_thread-returns zero s m h some_left = absurd (omega arith)
producer_process_thread-returns (suc zero) s m h some_left =
    (tt, elim [ true ↦ λ _ x. cc | false ↦ λ d. absurd (ground (arith, d (omega arith))) ])
producer_process_thread-returns (suc (suc n)) s m h some_left = (
  tt,
  elim [
    | true ↦ λ _ x. cc
    | false ↦ λ _. (
      tt,
      λ posted _.
          Ensures-bind (deadline m) (suc s) _ _ (λ t _. t ≡ suc s) _
            (Ensures-elim (deadline m) (is_zero posted) _ _ _ _ (λ _. (tt, λ _ _. refl))
              (λ _. (tt, λ _ _. refl)))
            λ t _ same. rw same (
              tt,
              λ _ _. producer_process_thread-returns (suc n) (suc s) m (omega arith) (omega arith),
            ),
    )
  ],
)

-- The flag ends a producer, and errors do not: if it is read as set at its read number `m` at the
-- latest, `m + 1` rounds are enough.
pub producer_process_thread-ends :
    (n m : ℕ) → m < n → Ensures (deadline m) 0 (producer_process_thread n) (λ t r. r ≢ none)
producer_process_thread-ends n m h =
    producer_process_thread-returns n 0 m (omega arith) (omega arith)

report-keeps : (m s : ℕ) (w : Waited) → Ensures (raised m) s (report w) (λ t _. t ≡ s)
unfolding report
report-keeps m s got = (tt, λ _ _. refl)
report-keeps m s etimedout = refl
report-keeps m s eintr = refl
report-keeps m s other_errno = (tt, λ _ _. refl)

consumer_process_thread-reads :
    (n s m : ℕ)
    → s ≤ m
    → m < s + n
    → Ensures (raised m) s (consumer_process_thread n) (λ t r. (t ≡ suc m) × (r ≢ none))
unfolding consumer_process_thread
consumer_process_thread-reads zero s m few h = absurd (omega arith)
consumer_process_thread-reads (suc n) s m few h = (
  tt,
  elim [
    | true ↦ λ raised_now. let there : s ≡ m = ground arith in (ap suc there, λ x. cc)
    | false ↦ λ not_yet.
        let before : s < m = ground arith in
        (
          tt,
          λ _ _. (
            tt,
            λ waited _.
                Ensures-bind (raised m) (suc s) (report waited) _ _ _
                  (report-keeps m (suc s) waited)
                  λ t _ same.
                    rw same (consumer_process_thread-reads n (suc s) m (omega arith) (omega arith)),
          ),
        )
  ],
)

-- The flag ends a consumer, and nothing else does: if it is read as set from its read number `m` on,
-- and not before, the consumer reads it `m + 1` times, whatever its other calls answer, and returns;
-- `m + 1` rounds are enough.
pub consumer_process_thread-ends :
    (n m : ℕ)
    → m < n
    → Ensures (raised m) 0 (consumer_process_thread n) (λ t r. (t ≡ suc m) × (r ≢ none))
consumer_process_thread-ends n m h = consumer_process_thread-reads n 0 m (omega arith) (omega arith)
