-- ===== src/Net/TcpServer/Shutdown.antt =====
-- net/tcp_server.c stops when it is asked to.
use linux_tutorial.Prelude.{ℕ, zero, suc, ◌+◌, ◌<◌, ◌≡◌, ◌≢◌, refl, true, false, none, some, arith}
use linux_tutorial.Prelude.Int.{ℤ}
use linux_tutorial.Prog.Logic.{Ensures, Ensures-bind, Ensures_mono, Ensures-elim}
use linux_tutorial.Platform.{is_zero, is_positive}
use linux_tutorial.Platform.Deadline.{deadline}
use linux_tutorial.Platform.Resources.{resources, stdio}
use linux_tutorial.Prog.Both.{both, Ensures-both}
use linux_tutorial.Net.TcpServer.Accepting.{main-releases}
use linux_tutorial.Net.TcpServer.{start_session, accept_loop, serve, main}

start_session-reads : (m s : ℕ) (c : ℤ) → Ensures (deadline m) s (start_session c) (λ t _. t ≡ s)
unfolding start_session
start_session-reads m s c = (
  tt,
  λ _ _. (
    tt,
    λ p _. (
      tt,
      λ _ _. (
        tt,
        λ created _.
            Ensures-elim (deadline m) (is_zero created) _ _ _ _ (λ _. refl)
              λ _. (tt, λ _ _. (tt, λ _ _. (tt, λ _ _. (tt, λ _ _. refl)))),
      ),
    ),
  ),
)

accept_loop-ends :
    (n s m : ℕ) (f : ℤ)
    → m < s + n
    → 0 < n
    → Ensures (deadline m) s (accept_loop n f) (λ t r. r ≢ none)
unfolding accept_loop
accept_loop-ends zero s m f h p = absurd (omega arith)
accept_loop-ends (suc n) s m f h p = (
  tt,
  elim [
    | true ↦ λ _ x. cc
    | false ↦ λ late. (
      tt,
      λ c _.
          Ensures-bind (deadline m) (suc s) _ _ (λ t _. t ≡ suc s) _
            (Ensures-elim (deadline m) (is_positive c) _ _ _ _
              (λ _. start_session-reads m (suc s) c) (λ _. (tt, λ _ _. refl)))
            λ t _ same.
              rw same (tt, λ _ _. accept_loop-ends n (suc s) m f (omega arith) (ground arith)),
    )
  ],
)

serve-ends : (n m : ℕ) (f : ℤ) → m < n → Ensures (deadline m) 0 (serve n f) (λ t r. r ≢ none)
unfolding serve
serve-ends n m f h = (
  tt,
  λ bound _.
      Ensures-elim (deadline m) (is_zero bound) _ _ _ _
        (λ _. (
          tt,
          λ listening _.
              Ensures-elim (deadline m) (is_zero listening) _ _ _ _
                (λ _. (
                  tt,
                  λ _ _.
                      Ensures-bind (deadline m) 0 (accept_loop n f) _ (λ t r. r ≢ none) _
                        (accept_loop-ends n 0 m f (omega arith) (omega arith))
                        λ t. elim [
                          | none ↦ λ ends. absurd (ends refl)
                          | some _ ↦ λ _. (tt, λ _ _ x. cc)
                        ],
                ))
                (λ _. (tt, λ _ _. (tt, λ _ _ x. cc))),
        ))
        (λ _. (tt, λ _ _. (tt, λ _ _ x. cc))),
)

main-ends : (n m : ℕ) → m < n → Ensures (deadline m) 0 (main n) (λ t r. r ≢ none)
unfolding main
main-ends n m h = (
  tt,
  λ _ _. (
    tt,
    λ _ _. (
      tt,
      λ _ _. (tt, λ _ _. (tt, λ _ _. (tt, λ _ _. (tt, λ _ _. (tt, λ f _. serve-ends n m f h))))),
    ),
  ),
)

-- If the flag is read as set at its read number `m` at the latest, `m + 1` rounds of the accept loop
-- are enough: whatever calls fail (but memory is ample), `main` returns, every descriptor that it
-- opened is closed or has gone to a thread, and so is every session, and nothing was used after.
pub tcp_server_main_total :
    (n m : ℕ)
    → m < n
    → Ensures
        (both (resources true) (deadline m))
        (stdio, 0)
        (main n)
        (λ t r. (t.0 ≡ stdio) × (r ≢ none))
tcp_server_main_total n m h =
    Ensures_mono (both (resources true) (deadline m)) (stdio, 0) (main n) _ _
      (Ensures-both (resources true) (deadline m) (main n) stdio 0 _ _ (main-releases n)
        (main-ends n m h))
      λ t r g. (g.0 g.1, g.1)
