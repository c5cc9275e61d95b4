-- ===== src/Tests/SemTests.antt =====
-- A run of the threads of ipc/semaphore.c.
use linux_tutorial.Prelude.{◌+◌, ◌≤◌, false, List, [], ◌∷◌, ◌++◌, arith, none}
use linux_tutorial.Prelude.Int.{pos}
use linux_tutorial.Prog.{ret}
use linux_tutorial.Platform.{app_quit, clock_gettime, sem_timedwait, puts, got}
use linux_tutorial.Ipc.Semaphore.{max_producer_size, consumer_process_thread, report}
use linux_tutorial.Ipc.Semaphore.Ledger.{nothing_owed}
use linux_tutorial.Ipc.Semaphore.Counting.{
  Thread, Shared, Step, first, other, Reach, here, more, producers, consumers, begun, get_lines-le,
}

abbrev others : List Thread → List Thread
others [] = []
others (t ∷ ts) = ts

-- The first consumer has got the semaphore once, and said so.
abbrev after_get : List Thread
after_get =
    producers 1
    ++ (record { limit = 0; program = ret none; owed = nothing_owed } ∷ others (consumers 1))

behind :
    (ts us : List Thread) {s s' : Shared} (t t' : Thread)
    → Step s (t ∷ us) s' (t' ∷ us)
    → Step s (ts ++ (t ∷ us)) s' (ts ++ (t' ∷ us))
behind [] us t t' step = step
behind (x ∷ ts) us t t' step = other x (behind ts us t t' step)

reach_get :
    Reach begun
      (producers 1 ++ consumers 1)
      (record { value = 0; get_lines = 1; post_lines = 0 })
      after_get
unfolding consumer_process_thread report
reach_get =
    more
      (more
        (more
          (more here
            (behind (producers 1) (others (consumers 1)) _ _ (first _ 0 app_quit _ _ false _ tt)))
          (behind (producers 1) (others (consumers 1)) _ _
            (first _ 0 clock_gettime _ _ (pos 0) _ tt)))
        (behind (producers 1) (others (consumers 1)) _ _
          (first _ 0 sem_timedwait _ _ got _ (omega arith))))
      (behind (producers 1) (others (consumers 1)) _ _
        (first _ 0 (puts "consumer %lu get semaphore\n") _ _ tt _ tt))

get_lines-le_example : 1 ≤ 0 + 1 + max_producer_size
get_lines-le_example = get_lines-le 1 1 reach_get
