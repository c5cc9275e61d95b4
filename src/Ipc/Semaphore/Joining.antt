-- ===== src/Ipc/Semaphore/Joining.antt =====
-- What `main` of ipc/semaphore.c does with its threads and the semaphore.
use linux_tutorial.Prelude.{
  ℕ, zero, suc, ◌+◌, ◌<◌, true, false, List, [], ◌∷◌, none, some, ◌≡◌, ◌≢◌, refl, arith,
}
use linux_tutorial.Prelude.Int.{pos}
use linux_tutorial.Prog.Logic.{Ensures, Ensures-bind, Ensures-elim}
use linux_tutorial.Platform.{Worker, producer, consumer, is_zero, eq_ℤ}
use linux_tutorial.Platform.Threads.{Running, threads_start, nothing_runs, first_starts}
use linux_tutorial.Ipc.Semaphore.{
  start_producers, start_producer, start_consumers, start_consumer, read_commands, join_all,
  exit_main, stop, work, main,
}

-- The threads after `k` more have started from index `i` on.
abbrev started : Worker → ℕ → ℕ → List (Worker × ℕ) → List (Worker × ℕ)
started w zero i ts = ts
started w (suc k) i ts = started w k (i + 1) ((w, i) ∷ ts)

abbrev alive_with : List (Worker × ℕ) → ℕ → Running
alive_with ts keys = record { alive = true; threads = ts; keys = keys }

start_producers-started :
    (m k i : ℕ) (ts : List (Worker × ℕ))
    → Ensures
        (threads_start m)
        (alive_with ts 0)
        (start_producers k i)
        (λ t r. (t ≡ alive_with (started producer k i ts) 0) × (r ≡ pos 0))
unfolding start_producers
start_producers-started m zero i ts = (refl, refl)
start_producers-started m (suc k) i ts =
    (refl, λ r d. rw d (start_producers-started m k (i + 1) ((producer, i) ∷ ts)))

start_consumers-started :
    (m k i : ℕ) (ts : List (Worker × ℕ))
    → Ensures
        (threads_start m)
        (alive_with ts 0)
        (start_consumers k i)
        (λ t r. t ≡ alive_with (started consumer k i ts) 0)
unfolding start_consumers
start_consumers-started m zero i ts = refl
start_consumers-started m (suc k) i ts =
    (refl, λ r d. rw d (start_consumers-started m k (i + 1) ((consumer, i) ∷ ts)))

read_commands-ends :
    (n m keys : ℕ) (ts : List (Worker × ℕ))
    → m < keys + n
    → 0 < n
    → Ensures
        (threads_start m)
        (alive_with ts keys)
        (read_commands n)
        (λ t r. (r ≢ none) × ((k : ℕ) × (t ≡ alive_with ts k)))
unfolding read_commands
read_commands-ends zero m keys ts h some_left = absurd (omega arith)
read_commands-ends (suc zero) m keys ts h some_left =
    (tt, λ cmd d. rw (d (omega arith)) ((λ x. cc), (suc keys, refl)))
read_commands-ends (suc (suc n)) m keys ts h some_left = (
  tt,
  λ cmd _.
      Ensures-elim (threads_start m) (eq_ℤ cmd (pos b'q')) _ _ _ _
        (λ _. ((λ x. cc), (suc keys, refl)))
        (λ _. (tt, λ _ _. read_commands-ends (suc n) m (suc keys) ts (omega arith) (omega arith))),
)

-- All eight threads.
abbrev all_started : List (Worker × ℕ)
all_started = started consumer 5 0 (started producer 3 0 [])

stop-joins :
    (m keys : ℕ)
    → Ensures
        (threads_start m)
        (alive_with all_started keys)
        stop
        (λ t r. (t.alive ≡ false) × (t.threads ≡ []) × (r ≢ none))
unfolding stop join_all exit_main
stop-joins m keys = (
  tt,
  λ _ _. (
    refl,
    λ _ _. (
      refl,
      λ _ _. (
        refl,
        λ _ _. (
          refl,
          λ _ _. (
            refl,
            λ _ _. (
              refl,
              λ _ _. (refl, λ _ _. (refl, λ _ _. ((refl, refl), λ _ _. (refl, refl, λ x. cc)))),
            ),
          ),
        ),
      ),
    ),
  ),
)

-- Where every thread starts, and key number `m` at the latest is a q, `m + 1` rounds of the loop are
-- enough: `main` returns, and it has joined each of the eight threads once and only then destroyed
-- the semaphore, if it was set up.
pub semaphore_main_total :
    (n m : ℕ)
    → m < n
    → Ensures
        (threads_start m)
        nothing_runs
        (main n)
        (λ t r. (t.alive ≡ false) × (t.threads ≡ []) × (r ≢ none))
unfolding main work start_producer start_consumer
semaphore_main_total n m h = (
  tt,
  λ r _.
      Ensures-elim (threads_start m) (is_zero r) _ _ _ _
        (λ e. rw e (
          tt,
          λ _ _.
              Ensures-bind (threads_start m) _ (start_producers 3 0) _ _ _
                (start_producers-started m 3 0 [])
                λ t r g.
                  rw (g.0, g.1)
                    (Ensures-bind (threads_start m) _ (start_consumers 5 0) _ _ _
                      (start_consumers-started m 5 0 (started producer 3 0 []))
                      λ t _ same. rw same (
                        Ensures-bind (threads_start m) _ (read_commands n) _ _ _
                          (read_commands-ends n m 0 all_started (omega arith) (omega arith))
                          λ t. elim [
                            | none ↦ λ g. absurd (g.0 refl)
                            | some _ ↦ λ g. rw g.1.1 (stop-joins m g.1.0)
                          ])),
        ))
        (λ e. rw e (tt, λ _ _. (refl, refl, λ x. cc))),
)

-- Where the first producer starts and the second does not, `main` destroys the semaphore that the
-- first one still uses, and returns.
pub semaphore_main-in_use :
    (n : ℕ)
    → Ensures first_starts nothing_runs
        (main n)
        (λ t r. (t.alive ≡ false) × (t.threads ≡ (producer, 0) ∷ []) × (r ≡ some (pos 0)))
unfolding main work start_producer start_producers exit_main
semaphore_main-in_use n = (
  tt,
  λ r d. rw d (
    tt,
    λ _ _. (
      tt,
      λ r d. rw d (tt, λ r d. rw d (tt, λ _ _. (tt, λ _ _. (refl, λ _ _. (refl, refl, refl))))),
    ),
  ),
)
