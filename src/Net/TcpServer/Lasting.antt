-- ===== src/Net/TcpServer/Lasting.antt =====
-- The loops of net/tcp_server.c have rounds left as long as few calls were made.
use linux_tutorial.Prelude.{ℕ, zero, suc, ◌+◌, ◌<◌, ◌≤◌, ◌≢◌, refl, none, some, true, false, arith}
use linux_tutorial.Prelude.Int.{ℤ}
use linux_tutorial.Prog.Logic.{Ensures, Ensures-bind, Ensures-elim}
use linux_tutorial.Platform.{Session, is_zero, is_error, is_positive}
use linux_tutorial.Platform.Process.Rounds.{at_most}
use linux_tutorial.Net.TcpServer.{
  session_loop, session_process_thread, start_session, accept_loop, serve, main,
}

session_loop-lasts :
    (n made most : ℕ) (e : Session)
    → made ≤ most
    → most < made + n
    → Ensures (at_most most) made (session_loop n e) (λ _ r. r ≢ none)
unfolding session_loop
session_loop-lasts zero made most e h enough = absurd (omega arith)
session_loop-lasts (suc n) made most e h enough = (
  tt,
  elim [
    | true ↦ λ _ x. cc
    | false ↦ λ _. (
      tt,
      λ _ _. (
        tt,
        λ r _.
            Ensures-elim (at_most most) (is_error r.size) _ _ _ _ (λ _. (tt, λ _ _ x. cc))
              λ _.
                Ensures-elim (at_most most) (is_zero r.size) _ _ _ _ (λ _. (tt, λ _ _ x. cc))
                  λ _. (tt, λ _ few. session_loop-lasts n _ most e few (omega arith)),
      ),
    )
  ],
)

pub session_process_thread-lasts :
    (n most : ℕ) (e : Session)
    → most < n
    → Ensures (at_most most) 0 (session_process_thread n e) (λ _ r. r ≢ none)
unfolding session_process_thread
session_process_thread-lasts n most e enough =
    Ensures-bind (at_most most) 0 (session_loop n e) _ (λ _ r. r ≢ none) _
      (session_loop-lasts n 0 most e (omega arith) (omega arith))
      λ t. elim [
        | none ↦ λ h. absurd (h refl)
        | some _ ↦ λ _. (tt, λ _ _. (tt, λ _ _. (tt, λ _ _ x. cc)))
      ]

start_session-lasts :
    (made most : ℕ) (c : ℤ)
    → made ≤ most
    → Ensures (at_most most) made (start_session c) (λ t _. (made ≤ t) × (t ≤ most))
unfolding start_session
start_session-lasts made most c h = (
  tt,
  λ _ _. (
    tt,
    λ p _. (
      tt,
      λ _ _. (
        tt,
        λ created d.
            Ensures-elim (at_most most) (is_zero created) _ _ _ _ (λ _. (omega arith, d))
              λ _. (tt, λ _ _. (tt, λ _ _. (tt, λ _ _. (tt, λ _ d'. (omega arith, d'))))),
      ),
    ),
  ),
)

accept_loop-lasts :
    (n made most : ℕ) (f : ℤ)
    → made ≤ most
    → most < made + n
    → Ensures (at_most most) made (accept_loop n f) (λ _ r. r ≢ none)
unfolding accept_loop
accept_loop-lasts zero made most f h enough = absurd (omega arith)
accept_loop-lasts (suc n) made most f h enough = (
  tt,
  elim [
    | true ↦ λ _ x. cc
    | false ↦ λ _. (
      tt,
      λ c few.
          Ensures-bind (at_most most) (suc (suc made)) _ _
            (λ t _. (suc (suc made) ≤ t) × (t ≤ most)) _
            (Ensures-elim (at_most most) (is_positive c) _ _ _ _
              (λ _. start_session-lasts (suc (suc made)) most c few)
              λ _. (tt, λ _ d. (omega arith, d)))
            λ t _ (more, le). (tt, λ _ d. accept_loop-lasts n (suc t) most f d (omega arith)),
    )
  ],
)

serve-lasts :
    (n made most : ℕ) (f : ℤ)
    → most < n
    → made ≤ most
    → Ensures (at_most most) made (serve n f) (λ _ r. r ≢ none)
unfolding serve
serve-lasts n made most f enough h = (
  tt,
  λ bound _.
      Ensures-elim (at_most most) (is_zero bound) _ _ _ _
        (λ _. (
          tt,
          λ listening _.
              Ensures-elim (at_most most) (is_zero listening) _ _ _ _
                (λ _. (
                  tt,
                  λ _ d.
                      Ensures-bind (at_most most) _ (accept_loop n f) _ (λ _ r. r ≢ none) _
                        (accept_loop-lasts n (suc (suc (suc made))) most f d (omega arith))
                        λ t. elim [ none ↦ λ x. absurd (x refl) | some _ ↦ λ _. (tt, λ _ _ x. cc) ],
                ))
                (λ _. (tt, λ _ _. (tt, λ _ _ x. cc))),
        ))
        (λ _. (tt, λ _ _. (tt, λ _ _ x. cc))),
)

pub main-lasts : (n most : ℕ) → most < n → Ensures (at_most most) 0 (main n) (λ _ r. r ≢ none)
unfolding main
main-lasts n most enough = (
  tt,
  λ _ _. (
    tt,
    λ _ _. (
      tt,
      λ _ _. (
        tt,
        λ _ _. (tt, λ _ _. (tt, λ _ _. (tt, λ _ _. (tt, λ f d. serve-lasts n 8 most f enough d)))),
      ),
    ),
  ),
)
