-- ===== src/Ipc/SockServer/Ordering.antt =====
-- The order of the calls of ipc/sock_server.c on its socket.
use linux_tutorial.Prelude.{ℕ, zero, suc, ◌≡◌, refl, true, false, none, some}
use linux_tutorial.Prelude.Int.{ℤ}
use linux_tutorial.Prog.Logic.{Ensures, Ensures-bind, Ensures_mono, Ensures-elim}
use linux_tutorial.Platform.{is_zero, is_null, is_positive}
use linux_tutorial.Platform.Protocol.{protocol, unused, listening}
use linux_tutorial.Ipc.SockServer.{start_session, accept_loop, serve}

accept_loop-InOrder :
    (n : ℕ) (f : ℤ) → Ensures protocol (listening f) (accept_loop n f) (λ t _. t ≡ listening f)
unfolding accept_loop start_session
accept_loop-InOrder zero f = refl
accept_loop-InOrder (suc n) f = (
  tt,
  elim [
    | true ↦ λ _. refl
    | false ↦ λ _. (
      refl,
      λ c _.
          Ensures-bind protocol (listening f) _ _ (λ t _. t ≡ listening f) _
            (Ensures-elim protocol (is_positive c) _ _ _ _
              (λ _. (
                tt,
                λ _ _. (
                  tt,
                  λ p _.
                      Ensures-elim protocol (is_null p) _ _ _ _ (λ _. refl)
                        λ _. (
                          tt,
                          λ _ _. (
                            tt,
                            λ created _.
                                Ensures-elim protocol (is_zero created) _ _ _ _ (λ _. refl)
                                  (λ _. (tt, λ _ _. refl)),
                          ),
                        ),
                ),
              ))
              (λ _. (tt, λ _ _. refl)))
            λ t _ same. rw same (accept_loop-InOrder n f),
    )
  ],
)

-- Clients are accepted only on the socket that was bound and listens.
serve-InOrder : (n : ℕ) (f : ℤ) → Ensures protocol unused (serve n f) (λ _ _. Unit)
unfolding serve
serve-InOrder n f = (
  tt,
  λ b _.
      Ensures-elim protocol (is_zero b) _ _ _ _
        (λ e. rw e (
          refl,
          λ l _.
              Ensures-elim protocol (is_zero l) _ _ _ _
                (λ e'. rw e' (
                  tt,
                  λ _ _.
                      Ensures-bind protocol (listening f) (accept_loop n f) _ (λ _ _. Unit) _
                        (Ensures_mono protocol (listening f) (accept_loop n f) _ _
                          (accept_loop-InOrder n f) (λ _ _ _. tt))
                        λ t. elim [ none ↦ λ _. tt | some _ ↦ λ _. (tt, λ _ _. tt) ],
                ))
                (λ _. (tt, λ _ _. tt)),
        ))
        (λ _. (tt, λ _ _. tt)),
)
