-- ===== src/Net/TlsServer/Stopping.antt =====
-- How many calls a thread of net/tls_server.c still makes once the quit flag is set.
use linux_tutorial.Prelude.{ℕ, zero, suc, ◌+◌, ◌-◌, ◌≤◌, Option, none, some, true, false, arith}
use linux_tutorial.Prelude.Int.{ℤ}
use linux_tutorial.Prog.Logic.{Monitor, Ensures, Ensures-bind, Ensures_mono, Ensures-elim}
use linux_tutorial.Platform.{Call, Reply, Io, is_zero, is_error, is_positive, is_null}
use linux_tutorial.Platform.Process.Prompt.{prompt}
use linux_tutorial.Net.TlsServer.{
  TlsSession, session_loop, quit_session, session_process_thread, start_session, accept_loop, serve,
  give_up, load_certificate, main,
}

-- What a session costs from its start, and what any thread spends between two reads of the flag.
abbrev pub session_cost : ℕ
session_cost = 12

abbrev pub thread_budget : ℕ
thread_budget = 25

abbrev pub soon : Monitor Call Reply
soon = prompt session_cost thread_budget

session_loop-prompt :
    (n left : ℕ) (e : TlsSession) → 7 ≤ left → Ensures soon left (session_loop n e) (λ t _. 6 ≤ t)
unfolding session_loop
session_loop-prompt zero left e h = omega arith
session_loop-prompt (suc n) left e h = (
  omega arith,
  elim [
    | true ↦ λ _. omega arith
    | false ↦ λ _. (
      omega arith,
      λ _ _. (
        omega arith,
        λ r _.
            Ensures-elim soon (is_error r.size) _ _ _ _ (λ _. (omega arith, λ _ _. omega arith))
              λ _.
                Ensures-elim soon (is_zero r.size) _ _ _ _ (λ _. (omega arith, λ _ _. omega arith))
                  λ _. (omega arith, λ _ _. session_loop-prompt n 22 e (omega arith)),
      ),
    )
  ],
)

quit_session-prompt :
    (left : ℕ) (e : TlsSession) → 4 ≤ left → Ensures soon left (quit_session e) (λ _ _. Unit)
unfolding quit_session
quit_session-prompt left e h =
    (omega arith, λ _ _. (omega arith, λ _ _. (omega arith, λ _ _. (omega arith, λ _ _. tt))))

pub session_process_thread-prompt :
    (n : ℕ) (e : TlsSession) → Ensures soon session_cost (session_process_thread n e) (λ _ _. Unit)
unfolding session_process_thread
session_process_thread-prompt n e = (
  omega arith,
  λ _ _. (
    omega arith,
    λ ssl _. (
      omega arith,
      λ _ _. (
        omega arith,
        λ _ _. (
          omega arith,
          λ accepted _.
              Ensures-elim soon (is_error accepted) _ _ _ _
                (λ _. quit_session-prompt 7 (record e { ssl = ssl }) (omega arith))
                λ _.
                  Ensures-bind soon 7 (session_loop n (record e { ssl = ssl })) _ (λ t _. 6 ≤ t) _
                    (session_loop-prompt n 7 (record e { ssl = ssl }) (omega arith))
                    λ t. elim [
                      | none ↦ λ _. tt
                      | some _ ↦ λ h. (
                        omega arith,
                        λ _ _. (
                          omega arith,
                          λ _ _.
                              quit_session-prompt (t - 1 - 1) (record e { ssl = ssl })
                                (omega arith),
                        ),
                      )
                    ],
        ),
      ),
    ),
  ),
)

start_session-prompt :
    (left x : ℕ) (c : ℤ) → 20 ≤ left → Ensures soon left (start_session x c) (λ t _. left ≤ t + 20)
unfolding start_session
start_session-prompt left x c h = (
  omega arith,
  λ _ _. (
    omega arith,
    λ _ _. (
      omega arith,
      λ _ _. (
        omega arith,
        λ created _.
            Ensures-elim soon (is_zero created) _ _ _ _ (λ _. omega arith)
              λ _. (
                omega arith,
                λ _ _.
                    (omega arith, λ _ _. (omega arith, λ _ _. (omega arith, λ _ _. omega arith))),
              ),
      ),
    ),
  ),
)

accept_loop-prompt :
    (n left x : ℕ) (f : ℤ) → 3 ≤ left → Ensures soon left (accept_loop n x f) (λ t _. 2 ≤ t)
unfolding accept_loop
accept_loop-prompt zero left x f h = omega arith
accept_loop-prompt (suc n) left x f h = (
  omega arith,
  elim [
    | true ↦ λ _. omega arith
    | false ↦ λ _. (
      omega arith,
      λ c _.
          Ensures-bind soon 24 _ _ (λ t _. 4 ≤ t) _
            (Ensures-elim soon (is_positive c) _ _ _ _
              (λ _.
                Ensures_mono soon 24 (start_session x c) _ _
                  (start_session-prompt 24 x c (omega arith)) λ t _ h. omega arith)
              λ _. (omega arith, λ _ _. omega arith))
            λ t _ more. (omega arith, λ _ _. accept_loop-prompt n (t - 1) x f (omega arith)),
    )
  ],
)

serve-prompt : (n : ℕ) (c : ℕ) (f : ℤ) → Ensures soon 10 (serve n c f) (λ _ _. Unit)
unfolding serve
serve-prompt n c f = (
  omega arith,
  λ bound _.
      Ensures-elim soon (is_zero bound) _ _ _ _
        (λ _. (
          omega arith,
          λ listening _.
              Ensures-elim soon (is_zero listening) _ _ _ _
                (λ _. (
                  omega arith,
                  λ _ _.
                      Ensures-bind soon 7 (accept_loop n c f) _ (λ t _. 2 ≤ t) _
                        (accept_loop-prompt n 7 c f (omega arith))
                        λ t. elim [
                          | none ↦ λ _. tt
                          | some _ ↦ λ h. (omega arith, λ _ _. (omega arith, λ _ _. tt))
                        ],
                ))
                (λ _. (omega arith, λ _ _. (omega arith, λ _ _. tt))),
        ))
        (λ _. (omega arith, λ _ _. (omega arith, λ _ _. tt))),
)

give_up-prompt : (left : ℕ) → 1 ≤ left → Ensures soon left give_up (λ _ _. Unit)
give_up-prompt left h = (h, λ _ _. tt)

load_certificate-prompt :
    (c : ℕ) (rest : Io (Option ℤ))
    → Ensures soon 11 rest (λ _ _. Unit)
    → Ensures soon 14 (load_certificate c rest) (λ _ _. Unit)
unfolding load_certificate
load_certificate-prompt c rest goes_on = (
  omega arith,
  λ cert _.
      Ensures-elim soon (is_positive cert) _ _ _ _
        (λ _. (
          omega arith,
          λ key _.
              Ensures-elim soon (is_positive key) _ _ _ _
                (λ _. (
                  omega arith,
                  λ checked _.
                      Ensures-elim soon (is_zero checked) _ _ _ _
                        (λ _. give_up-prompt 11 (omega arith)) λ _. goes_on,
                ))
                (λ _. give_up-prompt 12 (omega arith)),
        ))
        (λ _. give_up-prompt 13 (omega arith)),
)

pub main-prompt : (n : ℕ) → Ensures soon thread_budget (main n) (λ _ _. Unit)
unfolding main
main-prompt n = (
  omega arith,
  λ _ _. (
    omega arith,
    λ _ _. (
      omega arith,
      λ _ _. (
        omega arith,
        λ _ _. (
          omega arith,
          λ _ _. (
            omega arith,
            λ _ _. (
              omega arith,
              λ _ _. (
                omega arith,
                λ _ _. (
                  omega arith,
                  λ _ _. (
                    omega arith,
                    λ _ _. (
                      omega arith,
                      λ c _.
                          Ensures-elim soon (is_null c) _ _ _ _
                            (λ _. give_up-prompt 14 (omega arith))
                            λ _.
                              load_certificate-prompt c _ (omega arith, λ f _. serve-prompt n c f),
                    ),
                  ),
                ),
              ),
            ),
          ),
        ),
      ),
    ),
  ),
)
