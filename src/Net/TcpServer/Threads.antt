-- ===== src/Net/TcpServer/Threads.antt =====
-- net/tcp_server.c as a process: `main`, the threads of its sessions and the handler of its signals.
use linux_tutorial.Prelude.{
  ◌+◌, ◌*◌, ◌<◌, length, ℕ, ◌≤◌, ◌≡◌, ◌≢◌, refl, true, false, none, some, Option, List, [], ◌∷◌,
  arith,
}
use linux_tutorial.Prelude.Int.{ℤ, pos}
use linux_tutorial.Prog.{ret}
use linux_tutorial.Prog.Logic.{Ensures, Ensures-bind}
use linux_tutorial.Platform.{Session, Io, after}
use linux_tutorial.Platform.Resources.{Handle, resources, stdio}
use linux_tutorial.Platform.Resources.Counts.{count, capacity, SameHandles}
use linux_tutorial.Platform.Process.{Thread, Shared, Reach}
use linux_tutorial.Platform.Process.Balances.{stdio-Sound}
use linux_tutorial.Platform.Process.Rounds.{at_most}
use linux_tutorial.Platform.Process.Ending.{Lasts, any_ran_out}
use linux_tutorial.Platform.Process.Owning.{Account, Releases}
use linux_tutorial.Platform.Process.Apart.{users, all_returned, Reach-apart, Reach-drained}
use linux_tutorial.Platform.Process.Server.{Server, started, main_thread, Server-stops}
use linux_tutorial.Net.TcpServer.{session_process_thread, main}
use linux_tutorial.Net.TcpServer.Serving.{session_process_thread-releases}
use linux_tutorial.Net.TcpServer.Accepting.{main-releases}
use linux_tutorial.Net.TcpServer.Stopping.{
  session_cost, thread_budget, soon, session_process_thread-prompt, main-prompt,
}
use linux_tutorial.Net.TcpServer.Lasting.{session_process_thread-lasts, main-lasts}

-- What `pthread_create` runs. The function ends with no `return`: its result stands for any, and
-- nothing reads it.
abbrev pub session_thread : ℕ → Session → Io (Option ℤ)
session_thread n e = after (session_process_thread n e) (ret (some (pos 0)))

session_thread-Releases : (n : ℕ) → Releases (session_thread n)
session_thread-Releases n e =
    Ensures-bind (resources true) _ (session_process_thread n e) _ _ _
      (session_process_thread-releases true n e [])
      λ t. elim [ none ↦ λ _ h. absurd (h refl) | some _ ↦ λ done _. done (λ x. cc) ]

started-Account : (n : ℕ) → Account stdio started (main_thread (main n) ∷ [])
started-Account n = ((main-releases n, tt), λ h. omega arith, λ h. omega arith, stdio-Sound)

session_thread-prompt :
    (n : ℕ) (e : Session) → Ensures soon session_cost (session_thread n e) (λ _ _. Unit)
session_thread-prompt n e =
    Ensures-bind soon session_cost (session_process_thread n e) _ _ (λ _ (r : Option ℤ). Unit)
      (session_process_thread-prompt n e) λ t. elim [ none ↦ λ _. tt | some _ ↦ λ _. tt ]

session_thread-Lasts : (n most : ℕ) → most < n → (e : Session) → Lasts most 0 (session_thread n e)
session_thread-Lasts n most enough e =
    Ensures-bind (at_most most) 0 (session_process_thread n e) _ _ (λ _ (r : Option ℤ). r ≢ none)
      (session_process_thread-lasts n most e enough)
      λ t. elim [ none ↦ λ h. absurd (h refl) | some _ ↦ λ _ x. cc ]

abbrev tcp_server : Server
tcp_server = record {
  main = main;
  session = session_thread;
  session_cost = session_cost;
  budget = thread_budget;
  cheap = omega arith;
  main_prompt = main-prompt;
  session_prompt = session_thread-prompt;
  main_lasts = main-lasts;
  session_lasts = session_thread-Lasts;
}

-- Whatever the threads do and whichever calls fail, at most one thread at a time is about to use a
-- descriptor or an allocation, and if one is, that is open: where memory is ample, and
-- `pthread_create` stores the ID of the thread it makes before that thread runs.
pub tcp_server_threads-apart :
    (n m : ℕ) {k : ℕ} {s : Shared} {ts : List Thread} (h : Handle)
    → Reach (session_thread m) started (main_thread (main n) ∷ []) k s ts
    → capacity h ≡ 1
    → (users h ts ≤ count h s.table) × (count h s.table ≤ 1)
tcp_server_threads-apart n m h reached real =
    Reach-apart (session_thread m) (session_thread-Releases m) stdio (started-Account n) reached h
      real

-- When a signal has set the flag, after `k` moves, the process makes no more than 16 moves for each
-- thread that there is, those of threads that it still starts included, and no loop comes to the end
-- of its rounds: where memory is ample, and `k` moves and these many are fewer than the rounds. A
-- call is one move, however long it blocks.
pub tcp_server_threads-stop :
    (n m : ℕ) {k : ℕ} {s : Shared} {ts : List Thread} {k' : ℕ} {s' : Shared} {ts' : List Thread}
    → Reach (session_thread m) started (main_thread (main n) ∷ []) k s ts
    → s.quit ≡ true
    → Reach (session_thread m) s ts k' s' ts'
    → k + thread_budget * length ts < n
    → k + thread_budget * length ts < m
    → (k' ≤ thread_budget * length ts) × (any_ran_out ts' ≡ false)
tcp_server_threads-stop = Server-stops tcp_server

-- Whatever the threads do and whichever calls fail (but memory is ample), when `main` and the threads
-- of all its sessions have returned, standard input, output and error are open and nothing else is.
pub tcp_server_threads-drained :
    (n m : ℕ) {k : ℕ} {s : Shared} {ts : List Thread}
    → Reach (session_thread m) started (main_thread (main n) ∷ []) k s ts
    → all_returned ts ≡ true
    → SameHandles s.table stdio
tcp_server_threads-drained n m reached returned =
    Reach-drained (session_thread m) (session_thread-Releases m) stdio (started-Account n) reached
      returned
