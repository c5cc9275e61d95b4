-- ===== src/Ipc/SockServer/Failing.antt =====
-- What the listening thread of ipc/sock_server.c loses, and that it does not end.
use linux_tutorial.Prelude.{
  ℕ, zero, suc, ◌≡◌, refl, Bool, true, false, none, some, List, ◌∷◌, arith,
}
use linux_tutorial.Prelude.Int.{ℤ, pos}
use linux_tutorial.Prog.Logic.{Ensures, Ensures-bind, Ensures-elim}
use linux_tutorial.Prog.Both.{both}
use linux_tutorial.Platform.{Session, is_zero, is_null, is_positive, is_negative}
use linux_tutorial.Platform.Resources.{Handle, fd, holds, resources}
use linux_tutorial.Platform.Faults.{no_threads, asked}
use linux_tutorial.Ipc.SockServer.{
  start_session, accept_loop, process_loop, process_thread, serve, listen_thread, main,
}

-- A client whose thread cannot be started is lost: its socket stays open, and no thread has it.
pub start_session-leaks :
    (c : ℕ) (s : List Handle)
    → Ensures
        (both (resources false) no_threads)
        (fd (pos c) ∷ s, tt)
        (start_session (pos c))
        (λ t _. holds (fd (pos c)) t.0 ≡ true)
unfolding start_session
start_session-leaks c s = (
  (tt, tt),
  λ _ _. (
    (tt, tt),
    elim [
      | zero ↦ λ _. ground arith
      | suc p ↦ λ _. (
        (ground arith, tt),
        λ _ _. ((ground arith, tt), λ created d. rw d.1 ((tt, tt), λ _ _. ground arith)),
      )
    ],
  ),
)

-- The flag was not set, and is not.
abbrev pub Unset : Bool → Type 0
Unset s = s ≡ false

start_session-keeps : (c : ℤ) → Ensures asked false (start_session c) (λ t _. Unset t)
unfolding start_session
start_session-keeps c = (
  tt,
  λ _ _. (
    tt,
    λ p _.
        Ensures-elim asked (is_null p) _ _ _ _ (λ _. refl)
          λ _. (
            tt,
            λ _ _. (
              tt,
              λ created _.
                  Ensures-elim asked (is_zero created) _ _ _ _ (λ _. refl) λ _. (tt, λ _ _. refl),
            ),
          ),
  ),
)

accept_loop-keeps :
    (n : ℕ) (f : ℤ) → Ensures asked false (accept_loop n f) (λ t r. Unset t × (r ≡ none))
unfolding accept_loop
accept_loop-keeps zero f = (refl, refl)
accept_loop-keeps (suc n) f = (
  tt,
  elim [
    | true ↦ λ d. absurd (ground (arith, d refl))
    | false ↦ λ _. (
      tt,
      λ c _.
          Ensures-bind asked false _ _ (λ t _. Unset t) _
            (Ensures-elim asked (is_positive c) _ _ _ _ (λ _. start_session-keeps c)
              (λ _. (tt, λ _ _. refl)))
            λ t _ kept. rw kept (accept_loop-keeps n f),
    )
  ],
)

process_loop-keeps : (n : ℕ) (e : Session) → Ensures asked false (process_loop n e) (λ t _. Unset t)
unfolding process_loop
process_loop-keeps zero e = refl
process_loop-keeps (suc n) e = (
  tt,
  elim [
    | true ↦ λ _. refl
    | false ↦ λ _. (
      tt,
      λ _ _. (
        tt,
        λ r _.
            Ensures-elim asked (is_negative r.size) _ _ _ _ (λ _. (tt, λ _ _. refl))
              λ _.
                Ensures-elim asked (is_zero r.size) _ _ _ _ (λ _. (tt, λ _ _. refl))
                  λ _. (tt, λ _ _. process_loop-keeps n e),
      ),
    )
  ],
)

process_thread-keeps :
    (n : ℕ) (e : Session) → Ensures asked false (process_thread n e) (λ t _. Unset t)
unfolding process_thread
process_thread-keeps n e =
    Ensures-bind asked false (process_loop n e) _ (λ t _. Unset t) (λ t _. Unset t)
      (process_loop-keeps n e)
      λ t. elim [
        | none ↦ λ kept. kept
        | some _ ↦ λ kept. (tt, λ _ _. (tt, λ _ _. (tt, λ _ _. kept)))
      ]

main-keeps : Ensures asked false main (λ t _. Unset t)
unfolding main
main-keeps = (
  tt,
  λ created _.
      Ensures-elim asked (is_zero created) _ _ _ _ (λ _. (tt, λ _ _. refl))
        (λ _. (tt, λ _ _. refl)),
)

serve-keeps : (n : ℕ) (f : ℤ) → Ensures asked false (serve n f) (λ t _. Unset t)
unfolding serve
serve-keeps n f = (
  tt,
  λ b _.
      Ensures-elim asked (is_zero b) _ _ _ _
        (λ _. (
          tt,
          λ l _.
              Ensures-elim asked (is_zero l) _ _ _ _
                (λ _. (
                  tt,
                  λ _ _.
                      Ensures-bind asked false (accept_loop n f) _ (λ t r. Unset t × (r ≡ none))
                        (λ t _. Unset t) (accept_loop-keeps n f)
                        λ t. elim [ none ↦ λ kept. kept.0 | some _ ↦ λ kept. (tt, λ _ _. kept.0) ],
                ))
                (λ _. (tt, λ _ _. refl)),
        ))
        (λ _. (tt, λ _ _. refl)),
)

listen_thread-keeps : (n : ℕ) → Ensures asked false (listen_thread n) (λ t _. Unset t)
unfolding listen_thread
listen_thread-keeps n = (
  tt,
  λ u _.
      Ensures-bind asked false _ _ (λ t _. Unset t) (λ t _. Unset t)
        (Ensures-elim asked (is_zero u) _ _ _ _ (λ _. refl) (λ _. (tt, λ _ _. refl)))
        λ t _ kept. rw kept (tt, λ f _. serve-keeps n f),
)

-- Begun with the flag unset, neither `main` nor the listening thread nor a session's sets `g_quit`,
-- whatever their calls answer; where it is read as set only if one of them has set it, the accept loop
-- is left after no number of rounds.
pub accept_loop-never_ends :
    (n : ℕ) (f : ℤ) (e : Session)
    → Ensures asked false main (λ t _. Unset t)
      × Ensures asked false (listen_thread n) (λ t _. Unset t)
      × Ensures asked false (process_thread n e) (λ t _. Unset t)
      × Ensures asked false (accept_loop n f) (λ t r. Unset t × (r ≡ none))
accept_loop-never_ends n f e =
    (main-keeps, listen_thread-keeps n, process_thread-keeps n e, accept_loop-keeps n f)
