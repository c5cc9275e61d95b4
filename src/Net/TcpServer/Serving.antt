-- ===== src/Net/TcpServer/Serving.antt =====
-- The session thread of net/tcp_server.c.
use linux_tutorial.Prelude.{
  ℕ, zero, suc, ◌+◌, ◌<◌, ◌≡◌, ◌≢◌, refl, Bool, true, false, none, some, List, ◌∷◌, arith,
}
use linux_tutorial.Prog.Logic.{Ensures, Ensures-bind, Ensures_mono, Ensures-elim}
use linux_tutorial.Prog.Both.{both, Ensures-both}
use linux_tutorial.Platform.{Session, is_zero, is_error}
use linux_tutorial.Platform.Resources.{Handle, fd, mem, resources}
use linux_tutorial.Platform.Strings.{c_string-filled}
use linux_tutorial.Platform.Overread.{overread}
use linux_tutorial.Platform.Deadline.{deadline}
use linux_tutorial.Net.TcpServer.{buffer_size, session_loop, session_process_thread}

abbrev owned : Session → List Handle → List Handle
owned e rest = mem e.addr ∷ fd e.sock ∷ rest

session_loop-owned :
    (ample : Bool) (n : ℕ) (e : Session) (rest : List Handle)
    → Ensures (resources ample) (owned e rest) (session_loop n e) (λ t r. t ≡ owned e rest)
unfolding session_loop
session_loop-owned ample zero e rest = refl
session_loop-owned ample (suc n) e rest = (
  tt,
  elim [
    | true ↦ λ _. refl
    | false ↦ λ _. (
      ground arith,
      λ _ _. (
        ground arith,
        λ r d.
            Ensures-elim (resources ample) (is_error r.size) _ _ _ _ (λ _. (tt, λ _ _. refl))
              λ _.
                Ensures-elim (resources ample) (is_zero r.size) _ _ _ _ (λ _. (tt, λ _ _. refl))
                  λ _. (tt, λ _ _. session_loop-owned ample n e rest),
      ),
    )
  ],
)

-- However the calls answer, a session thread that has ended has closed its socket and freed its
-- session, each once and not used after, and has touched nothing else.
pub session_process_thread-releases :
    (ample : Bool) (n : ℕ) (e : Session) (rest : List Handle)
    → Ensures
        (resources ample)
        (owned e rest)
        (session_process_thread n e)
        (λ t r. r ≢ none → t ≡ rest)
unfolding session_process_thread
session_process_thread-releases ample n e rest =
    Ensures-bind (resources ample) (owned e rest) (session_loop n e) _ (λ t r. t ≡ owned e rest) _
      (session_loop-owned ample n e rest)
      λ t. elim [
        | none ↦ λ _ h. absurd (h refl)
        | some _ ↦ λ same.
            rw same
              (ground arith, λ _ _. (ground arith, λ _ _. (ground arith, λ _ _ _. ground arith)))
      ]

-- Once the flag is read as set, at its read number `m` at the latest, the thread ends: `m + 1` rounds are enough.
session_loop-ends :
    (n s m : ℕ) (e : Session)
    → m < s + n
    → 0 < n
    → Ensures (deadline m) s (session_loop n e) (λ t r. r ≢ none)
unfolding session_loop
session_loop-ends zero s m e h p = absurd (omega arith)
session_loop-ends (suc n) s m e h p = (
  tt,
  elim [
    | true ↦ λ _ x. cc
    | false ↦ λ late. (
      tt,
      λ _ _. (
        tt,
        λ r d.
            Ensures-elim (deadline m) (is_error r.size) _ _ _ _ (λ _. (tt, λ _ _ x. cc))
              λ _.
                Ensures-elim (deadline m) (is_zero r.size) _ _ _ _ (λ _. (tt, λ _ _ x. cc))
                  λ _. (tt, λ _ _. session_loop-ends n (suc s) m e (omega arith) (ground arith)),
      ),
    )
  ],
)

pub session_process_thread-ends :
    (n m : ℕ) (e : Session)
    → m < n
    → Ensures (deadline m) 0 (session_process_thread n e) (λ t r. r ≢ none)
unfolding session_process_thread
session_process_thread-ends n m e h =
    Ensures-bind (deadline m) 0 (session_loop n e) _ (λ t r. r ≢ none) _
      (session_loop-ends n 0 m e (omega arith) (omega arith))
      λ t. elim [
        | none ↦ λ some_end. absurd (some_end refl)
        | some _ ↦ λ _. (tt, λ _ _. (tt, λ _ _. (tt, λ _ _ x. cc)))
      ]

-- A thread that was given the flag in time returns, with its socket closed and its session freed,
-- each once and never used after, and nothing else touched.
pub tcp_session_total :
    (ample : Bool) (n m : ℕ) (e : Session) (rest : List Handle)
    → m < n
    → Ensures
        (both (resources ample) (deadline m))
        (owned e rest, 0)
        (session_process_thread n e)
        (λ t r. (t.0 ≡ rest) × (r ≢ none))
tcp_session_total ample n m e rest h =
    Ensures_mono (both (resources ample) (deadline m)) _ (session_process_thread n e) _ _
      (Ensures-both (resources ample) (deadline m) (session_process_thread n e) _ 0 _ _
        (session_process_thread-releases ample n e rest) (session_process_thread-ends n m e h))
      λ t r g. (g.0 g.1, g.1)

-- Data that comes with no NUL is printed out of an array that was not cleared: each line that a
-- session prints of it runs on past the bytes that were received.
pub tcp_session_loop-ReadsOn :
    (n : ℕ) (e : Session) → Ensures overread tt (session_loop n e) (λ _ _. Unit)
unfolding session_loop
tcp_session_loop-ReadsOn zero e = tt
tcp_session_loop-ReadsOn (suc n) e = (
  tt,
  elim [
    | true ↦ λ _. tt
    | false ↦ λ _. (
      tt,
      λ _ _. (
        tt,
        λ r text.
            Ensures-elim overread (is_error r.size) _ _ _ _ (λ _. (tt, λ _ _. tt))
              λ _.
                Ensures-elim overread (is_zero r.size) _ _ _ _ (λ _. (tt, λ _ _. tt))
                  λ _.
                    (c_string-filled r.bytes buffer_size text, λ _ _. tcp_session_loop-ReadsOn n e),
      ),
    )
  ],
)
