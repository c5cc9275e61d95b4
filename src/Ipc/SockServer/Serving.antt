-- ===== src/Ipc/SockServer/Serving.antt =====
-- The session thread of ipc/sock_server.c.
use linux_tutorial.Prelude.{
  ℕ, zero, suc, ◌+◌, ◌<◌, ◌≤◌, ◌≡◌, ◌≢◌, refl, Bool, true, false, none, some, List, ◌∷◌, arith,
}
use linux_tutorial.Prelude.Int.{ℤ, pos, negsuc}
use linux_tutorial.Prog.Logic.{Ensures, Ensures-bind, Ensures_mono, Ensures-elim}
use linux_tutorial.Prog.Both.{both, Ensures-both}
use linux_tutorial.Platform.{Session, is_zero, is_negative, is_positive}
use linux_tutorial.Platform.Resources.{Handle, fd, mem, resources}
use linux_tutorial.Platform.Strings.{c_string-filled}
use linux_tutorial.Platform.Overread.{overread}
use linux_tutorial.Platform.Deadline.{hung_up}
use linux_tutorial.Ipc.SockServer.{process_loop, process_thread}

abbrev owned : Session → List Handle → List Handle
owned e rest = mem e.addr ∷ fd e.sock ∷ rest

process_loop-owned :
    (ample : Bool) (n : ℕ) (e : Session) (rest : List Handle)
    → Ensures (resources ample) (owned e rest) (process_loop n e) (λ t r. t ≡ owned e rest)
unfolding process_loop
process_loop-owned ample zero e rest = refl
process_loop-owned ample (suc n) e rest = (
  tt,
  elim [
    | true ↦ λ _. refl
    | false ↦ λ _. (
      ground arith,
      λ _ _. (
        ground arith,
        λ r d.
            Ensures-elim (resources ample) (is_negative r.size) _ _ _ _ (λ _. (tt, λ _ _. refl))
              λ _.
                Ensures-elim (resources ample) (is_zero r.size) _ _ _ _ (λ _. (tt, λ _ _. refl))
                  λ _. (tt, λ _ _. process_loop-owned ample n e rest),
      ),
    )
  ],
)

-- However the calls answer, a session thread that has ended has closed its socket and freed its
-- session, each once and not used after, and has touched nothing else.
pub process_thread-releases :
    (ample : Bool) (n : ℕ) (e : Session) (rest : List Handle)
    → Ensures (resources ample) (owned e rest) (process_thread n e) (λ t r. r ≢ none → t ≡ rest)
unfolding process_thread
process_thread-releases ample n e rest =
    Ensures-bind (resources ample) (owned e rest) (process_loop n e) _ (λ t r. t ≡ owned e rest) _
      (process_loop-owned ample n e rest)
      λ t. elim [
        | none ↦ λ _ h. absurd (h refl)
        | some _ ↦ λ same.
            rw same
              (ground arith, λ _ _. (ground arith, λ _ _. (ground arith, λ _ _ _. ground arith)))
      ]

sign-is_positive : (x : ℤ) → is_negative x ≡ false → is_zero x ≡ false → is_positive x ≡ true
sign-is_positive (pos zero) a b = ground arith
sign-is_positive (pos (suc x)) a b = refl
sign-is_positive (negsuc x) a b = ground arith

process_loop-ends :
    (n s m : ℕ) (e : Session)
    → m < s + n
    → s ≤ m
    → Ensures (hung_up m) s (process_loop n e) (λ t r. r ≢ none)
unfolding process_loop
process_loop-ends zero s m e h p = absurd (omega arith)
process_loop-ends (suc n) s m e h p = (
  tt,
  elim [
    | true ↦ λ _ x. cc
    | false ↦ λ _. (
      tt,
      λ _ _. (
        tt,
        λ r d.
            Ensures-elim (hung_up m) (is_negative r.size) _ _ _ _ (λ _. (tt, λ _ _ x. cc))
              λ sign.
                Ensures-elim (hung_up m) (is_zero r.size) _ _ _ _ (λ _. (tt, λ _ _ x. cc))
                  λ some_data.
                    let data_there = sign-is_positive r.size sign some_data in
                    let early : s < m = ground arith in
                    (tt, λ _ _. process_loop-ends n (suc s) m e (omega arith) early),
      ),
    )
  ],
)

process_thread-ends :
    (n m : ℕ) (e : Session) → m < n → Ensures (hung_up m) 0 (process_thread n e) (λ t r. r ≢ none)
unfolding process_thread
process_thread-ends n m e h =
    Ensures-bind (hung_up m) 0 (process_loop n e) _ (λ t r. r ≢ none) _
      (process_loop-ends n 0 m e (omega arith) (omega arith))
      λ t. elim [
        | none ↦ λ some_end. absurd (some_end refl)
        | some _ ↦ λ _. (tt, λ _ _. (tt, λ _ _. (tt, λ _ _ x. cc)))
      ]

-- When the peer hangs up, so that from `recv` number `m` on none brings data, `m + 1` rounds are
-- enough: the session's thread returns, whatever its other calls answer, with its socket closed and
-- its session freed, each once and not used after by the thread, and it has touched nothing else.
pub sock_session_total :
    (ample : Bool) (n m : ℕ) (e : Session) (rest : List Handle)
    → m < n
    → Ensures
        (both (resources ample) (hung_up m))
        (owned e rest, 0)
        (process_thread n e)
        (λ t r. (t.0 ≡ rest) × (r ≢ none))
sock_session_total ample n m e rest h =
    Ensures_mono (both (resources ample) (hung_up m)) _ (process_thread n e) _ _
      (Ensures-both (resources ample) (hung_up m) (process_thread n e) _ 0 _ _
        (process_thread-releases ample n e rest) (process_thread-ends n m e h))
      λ t r g. (g.0 g.1, g.1)

-- Data that comes with no NUL is printed out of an array that was not cleared: each line that a
-- session prints of it runs on past the bytes that were received.
pub sock_process_loop-ReadsOn :
    (n : ℕ) (e : Session) → Ensures overread tt (process_loop n e) (λ _ _. Unit)
unfolding process_loop
sock_process_loop-ReadsOn zero e = tt
sock_process_loop-ReadsOn (suc n) e = (
  tt,
  elim [
    | true ↦ λ _. tt
    | false ↦ λ _. (
      tt,
      λ _ _. (
        tt,
        λ r text.
            Ensures-elim overread (is_negative r.size) _ _ _ _ (λ _. (tt, λ _ _. tt))
              λ _.
                Ensures-elim overread (is_zero r.size) _ _ _ _ (λ _. (tt, λ _ _. tt))
                  λ _. (c_string-filled r.bytes 1024 text, λ _ _. sock_process_loop-ReadsOn n e),
      ),
    )
  ],
)
