-- ===== src/Net/TlsServer/Shutdown.antt =====
-- net/tls_server.c ends its sessions when it is asked to.
use linux_tutorial.Prelude.{
  ℕ, zero, suc, ◌+◌, ◌<◌, ◌≡◌, ◌≢◌, refl, true, false, none, some, List, ◌∷◌, arith,
}
use linux_tutorial.Prog.Logic.{Ensures, Ensures-bind, Ensures_mono, Ensures-elim}
use linux_tutorial.Prog.Both.{both, Ensures-both}
use linux_tutorial.Platform.{Session, is_zero, is_error}
use linux_tutorial.Platform.Resources.{Handle, ctx, resources}
use linux_tutorial.Platform.Deadline.{deadline}
use linux_tutorial.Net.TlsServer.{session_loop, quit_session, session_process_thread}
use linux_tutorial.Net.TlsServer.Serving.{owned, session_process_thread-releases}

session_loop-ends :
    (n s m c p : ℕ) (e : Session)
    → m < s + n
    → 0 < n
    → Ensures
        (deadline m)
        s
        (session_loop n (record { base = e; ctx = c; ssl = p }))
        (λ t r. r ≢ none)
unfolding session_loop
session_loop-ends zero s m c p e h q = absurd (omega arith)
session_loop-ends (suc n) s m c p e h q = (
  tt,
  elim [
    | true ↦ λ _ x. cc
    | false ↦ λ late. (
      tt,
      λ _ _. (
        tt,
        λ r _.
            Ensures-elim (deadline m) (is_error r.size) _ _ _ _ (λ _. (tt, λ _ _ x. cc))
              λ _.
                Ensures-elim (deadline m) (is_zero r.size) _ _ _ _ (λ _. (tt, λ _ _ x. cc))
                  λ _.
                    (tt, λ _ _. session_loop-ends n (suc s) m c p e (omega arith) (ground arith)),
      ),
    )
  ],
)

quit_session-ends :
    (m s c p : ℕ) (e : Session)
    → Ensures
        (deadline m)
        s
        (quit_session (record { base = e; ctx = c; ssl = p }))
        (λ t r. r ≢ none)
unfolding quit_session
quit_session-ends m s c p e = (tt, λ _ _. (tt, λ _ _. (tt, λ _ _. (tt, λ _ _ x. cc))))

session_process_thread-ends :
    (n m c q : ℕ) (e : Session)
    → m < n
    → Ensures
        (deadline m)
        0
        (session_process_thread n (record { base = e; ctx = c; ssl = q }))
        (λ t r. r ≢ none)
unfolding session_process_thread
session_process_thread-ends n m c q e h = (
  tt,
  λ _ _. (
    tt,
    λ p _. (
      tt,
      λ _ _. (
        tt,
        λ _ _. (
          tt,
          λ accepted _.
              Ensures-elim (deadline m) (is_error accepted) _ _ _ _
                (λ _. quit_session-ends m 0 c p e)
                λ _.
                  Ensures-bind (deadline m) 0
                    (session_loop n (record { base = e; ctx = c; ssl = p })) _ (λ t r. r ≢ none) _
                    (session_loop-ends n 0 m c p e (omega arith) (omega arith))
                    λ t. elim [
                      | none ↦ λ some_end. absurd (some_end refl)
                      | some _ ↦ λ _. (tt, λ _ _. (tt, λ _ _. quit_session-ends m t c p e))
                    ],
        ),
      ),
    ),
  ),
)

-- Where memory is ample, so that SSL_new does not answer NULL, a thread that was given the flag in time
-- returns, with its SSL freed, its socket closed and its session freed, each once and not used after by
-- the thread; it does not free the context that it borrows.
pub tls_session_total :
    (n m c q : ℕ) (e : Session) (rest : List Handle)
    → m < n
    → Ensures
        (both (resources true) (deadline m))
        (owned c e rest, 0)
        (session_process_thread n (record { base = e; ctx = c; ssl = q }))
        (λ t r. (t.0 ≡ ctx c ∷ rest) × (r ≢ none))
tls_session_total n m c q e rest h =
    Ensures_mono (both (resources true) (deadline m)) _
      (session_process_thread n (record { base = e; ctx = c; ssl = q })) _ _
      (Ensures-both (resources true) (deadline m)
        (session_process_thread n (record { base = e; ctx = c; ssl = q })) _ 0 _ _
        (session_process_thread-releases n c q e rest) (session_process_thread-ends n m c q e h))
      λ t r g. (g.0 g.1, g.1)
