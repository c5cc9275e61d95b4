-- ===== src/Net/TlsServer/Serving.antt =====
-- The session thread of net/tls_server.c.
use linux_tutorial.Prelude.{ℕ, zero, suc, ◌≡◌, ◌≢◌, refl, true, false, none, some, List, ◌∷◌, arith}
use linux_tutorial.Prog.Logic.{Ensures, Ensures-bind, Ensures-elim}
use linux_tutorial.Platform.{Session, is_zero, is_error}
use linux_tutorial.Platform.Resources.{Handle, fd, mem, ctx, ssl, holds, resources}
use linux_tutorial.Platform.Strings.{c_string-filled}
use linux_tutorial.Platform.Overread.{overread}
use linux_tutorial.Net.TlsServer.{buffer_size, session_loop, quit_session, session_process_thread}

-- What the thread owns, and the context that it borrows.
abbrev pub owned : ℕ → Session → List Handle → List Handle
owned c e rest = mem e.addr ∷ fd e.sock ∷ ctx c ∷ rest

session_loop-owned :
    (n c p : ℕ) (e : Session) (s : List Handle)
    → holds (mem e.addr) s ≡ true
    → Ensures
        (resources true)
        (ssl p ∷ s)
        (session_loop n (record { base = e; ctx = c; ssl = p }))
        (λ t _. t ≡ ssl p ∷ s)
unfolding session_loop
session_loop-owned zero c p e s h = refl
session_loop-owned (suc n) c p e s h = (
  tt,
  elim [
    | true ↦ λ _. refl
    | false ↦ λ _. (
      h,
      λ _ _. (
        ground arith,
        λ r _.
            Ensures-elim (resources true) (is_error r.size) _ _ _ _ (λ _. (tt, λ _ _. refl))
              λ _.
                Ensures-elim (resources true) (is_zero r.size) _ _ _ _ (λ _. (tt, λ _ _. refl))
                  λ _. (tt, λ _ _. session_loop-owned n c p e s h),
      ),
    )
  ],
)

quit_session-releases :
    (c p : ℕ) (e : Session) (rest : List Handle)
    → Ensures
        (resources true)
        (ssl p ∷ owned c e rest)
        (quit_session (record { base = e; ctx = c; ssl = p }))
        (λ t r. r ≢ none → t ≡ ctx c ∷ rest)
unfolding quit_session
quit_session-releases c p e rest = (
  ground arith,
  λ _ _. (ground arith, λ _ _. (ground arith, λ _ _. (ground arith, λ _ _ _. ground arith))),
)

-- A session thread that has ended has freed its SSL before it closed the socket under it, and its
-- session last, each once and never used after; the context that it borrows is still there.
pub session_process_thread-releases :
    (n c q : ℕ) (e : Session) (rest : List Handle)
    → Ensures
        (resources true)
        (owned c e rest)
        (session_process_thread n (record { base = e; ctx = c; ssl = q }))
        (λ t r. r ≢ none → t ≡ ctx c ∷ rest)
unfolding session_process_thread
session_process_thread-releases n c q e rest = (
  ground arith,
  λ _ _. (
    ground arith,
    elim [
      | zero ↦ λ d. absurd (d.1 refl)
      | suc p ↦ λ _. (
        ground arith,
        λ _ _. (
          ground arith,
          λ _ _. (
            ground arith,
            λ accepted _.
                Ensures-elim (resources true) (is_error accepted) _ _ _ _
                  (λ _. quit_session-releases c (suc p) e rest)
                  (λ _.
                    Ensures-bind (resources true) (ssl (suc p) ∷ owned c e rest)
                      (session_loop n (record { base = e; ctx = c; ssl = suc p })) _
                      (λ t _. t ≡ ssl (suc p) ∷ owned c e rest) _
                      (session_loop-owned n c (suc p) e (owned c e rest) (ground arith))
                      λ t. elim [
                        | none ↦ λ _ h. absurd (h refl)
                        | some _ ↦ λ same. rw same (
                          ground arith,
                          λ _ _. (ground arith, λ _ _. quit_session-releases c (suc p) e rest),
                        )
                      ]),
          ),
        ),
      )
    ],
  ),
)

-- Data that comes with no NUL is printed out of an array that was not cleared: each line that a
-- session prints of it runs on past the bytes that were received.
pub tls_session_loop-ReadsOn :
    (n c p : ℕ) (e : Session)
    → Ensures overread tt (session_loop n (record { base = e; ctx = c; ssl = p })) (λ _ _. Unit)
unfolding session_loop
tls_session_loop-ReadsOn zero c p e = tt
tls_session_loop-ReadsOn (suc n) c p e = (
  tt,
  elim [
    | true ↦ λ _. tt
    | false ↦ λ _. (
      tt,
      λ _ _. (
        tt,
        λ r text.
            Ensures-elim overread (is_error r.size) _ _ _ _ (λ _. (tt, λ _ _. tt))
              λ _.
                Ensures-elim overread (is_zero r.size) _ _ _ _ (λ _. (tt, λ _ _. tt))
                  λ _. (
                    c_string-filled r.bytes buffer_size text,
                    λ _ _. tls_session_loop-ReadsOn n c p e,
                  ),
      ),
    )
  ],
)
