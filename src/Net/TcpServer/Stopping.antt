-- ===== src/Net/TcpServer/Stopping.antt =====
-- How many calls a thread of net/tcp_server.c still makes once the quit flag is set.
use linux_tutorial.Prelude.{ℕ, zero, suc, ◌+◌, ◌-◌, ◌≤◌, none, some, true, false, arith}
use linux_tutorial.Prelude.Int.{ℤ}
use linux_tutorial.Prog.Logic.{Monitor, Ensures, Ensures-bind, Ensures_mono, Ensures-elim}
use linux_tutorial.Platform.{Call, Reply, Session, is_zero, is_error, is_positive}
use linux_tutorial.Platform.Process.Prompt.{prompt}
use linux_tutorial.Net.TcpServer.{
  session_loop, session_process_thread, start_session, accept_loop, serve, main,
}

-- What a session costs from its start, and what any thread spends between two reads of the flag.
abbrev pub session_cost : ℕ
session_cost = 4

abbrev pub thread_budget : ℕ
thread_budget = 16

abbrev pub soon : Monitor Call Reply
soon = prompt session_cost thread_budget

session_loop-prompt :
    (n left : ℕ) (e : Session) → 4 ≤ left → Ensures soon left (session_loop n e) (λ t _. 3 ≤ t)
unfolding session_loop
session_loop-prompt zero left e h = omega arith
session_loop-prompt (suc n) left e h = (
  omega arith,
  elim [
    | true ↦ λ _. omega arith
    | false ↦ λ _. (
      omega arith,
      λ _ _. (
        omega arith,
        λ r _.
            Ensures-elim soon (is_error r.size) _ _ _ _ (λ _. (omega arith, λ _ _. omega arith))
              λ _.
                Ensures-elim soon (is_zero r.size) _ _ _ _ (λ _. (omega arith, λ _ _. omega arith))
                  λ _. (omega arith, λ _ _. session_loop-prompt n 13 e (omega arith)),
      ),
    )
  ],
)

pub session_process_thread-prompt :
    (n : ℕ) (e : Session) → Ensures soon session_cost (session_process_thread n e) (λ _ _. Unit)
unfolding session_process_thread
session_process_thread-prompt n e =
    Ensures-bind soon session_cost (session_loop n e) _ (λ t _. 3 ≤ t) _
      (session_loop-prompt n session_cost e (omega arith))
      λ t. elim [
        | none ↦ λ _. tt
        | some _ ↦ λ h. (omega arith, λ _ _. (omega arith, λ _ _. (omega arith, λ _ _. tt)))
      ]

start_session-prompt :
    (left : ℕ) (c : ℤ) → 12 ≤ left → Ensures soon left (start_session c) (λ t _. left ≤ t + 12)
unfolding start_session
start_session-prompt left c h = (
  omega arith,
  λ _ _. (
    omega arith,
    λ p _. (
      omega arith,
      λ _ _. (
        omega arith,
        λ created _.
            Ensures-elim soon (is_zero created) _ _ _ _ (λ _. omega arith)
              λ _. (
                omega arith,
                λ _ _.
                    (omega arith, λ _ _. (omega arith, λ _ _. (omega arith, λ _ _. omega arith))),
              ),
      ),
    ),
  ),
)

accept_loop-prompt :
    (n left : ℕ) (f : ℤ) → 2 ≤ left → Ensures soon left (accept_loop n f) (λ t _. 1 ≤ t)
unfolding accept_loop
accept_loop-prompt zero left f h = omega arith
accept_loop-prompt (suc n) left f h = (
  omega arith,
  elim [
    | true ↦ λ _. omega arith
    | false ↦ λ _. (
      omega arith,
      λ c _.
          Ensures-bind soon 15 _ _ (λ t _. 3 ≤ t) _
            (Ensures-elim soon (is_positive c) _ _ _ _
              (λ _.
                Ensures_mono soon 15 (start_session c) _ _ (start_session-prompt 15 c (omega arith))
                  λ t _ h. omega arith)
              λ _. (omega arith, λ _ _. omega arith))
            λ t _ more. (omega arith, λ _ _. accept_loop-prompt n (t - 1) f (omega arith)),
    )
  ],
)

serve-prompt : (n : ℕ) (f : ℤ) → Ensures soon 8 (serve n f) (λ _ _. Unit)
unfolding serve
serve-prompt n f = (
  omega arith,
  λ bound _.
      Ensures-elim soon (is_zero bound) _ _ _ _
        (λ _. (
          omega arith,
          λ listening _.
              Ensures-elim soon (is_zero listening) _ _ _ _
                (λ _. (
                  omega arith,
                  λ _ _.
                      Ensures-bind soon 5 (accept_loop n f) _ (λ t _. 1 ≤ t) _
                        (accept_loop-prompt n 5 f (omega arith))
                        λ t. elim [ none ↦ λ _. tt | some _ ↦ λ h. (omega arith, λ _ _. tt) ],
                ))
                (λ _. (omega arith, λ _ _. (omega arith, λ _ _. tt))),
        ))
        (λ _. (omega arith, λ _ _. (omega arith, λ _ _. tt))),
)

pub main-prompt : (n : ℕ) → Ensures soon thread_budget (main n) (λ _ _. Unit)
unfolding main
main-prompt n = (
  omega arith,
  λ _ _. (
    omega arith,
    λ _ _. (
      omega arith,
      λ _ _. (
        omega arith,
        λ _ _. (
          omega arith,
          λ _ _. (omega arith, λ _ _. (omega arith, λ _ _. (omega arith, λ f _. serve-prompt n f))),
        ),
      ),
    ),
  ),
)
