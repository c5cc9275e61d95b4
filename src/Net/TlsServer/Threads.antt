-- ===== src/Net/TlsServer/Threads.antt =====
-- net/tls_server.c as a process: `main`, the threads of its sessions and the handler of its signals.
use linux_tutorial.Prelude.{
  ℕ, ◌+◌, ◌*◌, ◌<◌, ◌≤◌, ◌≡◌, ◌≢◌, refl, true, false, Option, none, some, List, [], ◌∷◌, length,
  arith,
}
use linux_tutorial.Prelude.Int.{ℤ, pos}
use linux_tutorial.Prog.{ret}
use linux_tutorial.Prog.Logic.{Ensures, Ensures-bind}
use linux_tutorial.Platform.{Session, Io, after}
use linux_tutorial.Platform.Process.{Thread, Shared, Reach}
use linux_tutorial.Platform.Process.Rounds.{at_most}
use linux_tutorial.Platform.Process.Ending.{Lasts, any_ran_out}
use linux_tutorial.Platform.Process.Server.{Server, started, main_thread, Server-stops}
use linux_tutorial.Net.TlsServer.{TlsSession, session_process_thread, main}
use linux_tutorial.Net.TlsServer.Stopping.{
  session_cost, thread_budget, soon, session_process_thread-prompt, main-prompt,
}
use linux_tutorial.Net.TlsServer.Lasting.{session_process_thread-lasts, main-lasts}

-- The session struct that the accept loop fills: `ssl` is not set yet.
abbrev tls_session : ℕ → Session → TlsSession
tls_session c e = record { base = e; ctx = c; ssl = 0 }

-- What `pthread_create` runs for a session with the context `c`. The function ends with no `return`:
-- its result stands for any, and nothing reads it.
abbrev pub session_thread : ℕ → ℕ → Session → Io (Option ℤ)
session_thread c n e = after (session_process_thread n (tls_session c e)) (ret (some (pos 0)))

session_thread-prompt :
    (c n : ℕ) (e : Session) → Ensures soon session_cost (session_thread c n e) (λ _ _. Unit)
session_thread-prompt c n e =
    Ensures-bind soon session_cost (session_process_thread n (tls_session c e)) _ _
      (λ _ (r : Option ℤ). Unit) (session_process_thread-prompt n (tls_session c e))
      λ t. elim [ none ↦ λ _. tt | some _ ↦ λ _. tt ]

session_thread-Lasts :
    (c n most : ℕ) → most < n → (e : Session) → Lasts most 0 (session_thread c n e)
session_thread-Lasts c n most enough e =
    Ensures-bind (at_most most) 0 (session_process_thread n (tls_session c e)) _ _
      (λ _ (r : Option ℤ). r ≢ none) (session_process_thread-lasts n most (tls_session c e) enough)
      λ t. elim [ none ↦ λ h. absurd (h refl) | some _ ↦ λ _ x. cc ]

abbrev tls_server : ℕ → Server
tls_server c = record {
  main = main;
  session = session_thread c;
  session_cost = session_cost;
  budget = thread_budget;
  cheap = omega arith;
  main_prompt = main-prompt;
  session_prompt = session_thread-prompt c;
  main_lasts = main-lasts;
  session_lasts = session_thread-Lasts c;
}

-- Whatever context the sessions hold: when a signal has set the flag, after `k` moves, the process
-- makes no more than 25 moves for each thread that there is, those of threads that it still starts
-- included, and no loop comes to the end of its rounds: where memory is ample, and `k` moves and these
-- many are fewer than the rounds. A call is one move, however long it blocks.
pub tls_server_threads-stop :
    (c n m : ℕ) {k : ℕ} {s : Shared} {ts : List Thread} {k' : ℕ} {s' : Shared} {ts' : List Thread}
    → Reach (session_thread c m) started (main_thread (main n) ∷ []) k s ts
    → s.quit ≡ true
    → Reach (session_thread c m) s ts k' s' ts'
    → k + thread_budget * length ts < n
    → k + thread_budget * length ts < m
    → (k' ≤ thread_budget * length ts) × (any_ran_out ts' ≡ false)
tls_server_threads-stop c = Server-stops (tls_server c)
