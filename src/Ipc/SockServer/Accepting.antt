-- ===== src/Ipc/SockServer/Accepting.antt =====
-- The listening thread of ipc/sock_server.c: what it owns.
use linux_tutorial.Prelude.{ℕ, zero, suc, ◌≡◌, refl, true, false, none, some, List, ◌∷◌, arith}
use linux_tutorial.Prelude.Int.{pos, negsuc}
use linux_tutorial.Prog.Logic.{Ensures, Ensures-bind, Ensures-elim}
use linux_tutorial.Platform.{is_zero}
use linux_tutorial.Platform.Resources.{Handle, fd, holds, resources, stdio}
use linux_tutorial.Ipc.SockServer.{start_session, accept_loop, serve, listen_thread}

-- What was held is still held.
abbrev Still : List Handle → List Handle → Type 0
Still s t = (h : Handle) → holds h s ≡ true → holds h t ≡ true

start_session-Still :
    (c : ℕ) (s : List Handle)
    → Ensures (resources false) (fd (pos c) ∷ s) (start_session (pos c)) (λ t _. Still s t)
unfolding start_session
start_session-Still c s = (
  tt,
  λ _ _. (
    tt,
    elim [
      | zero ↦ λ _ h e. ground arith
      | suc p ↦ λ _. (
        ground arith,
        λ _ _. (
          ground arith,
          λ created _.
              Ensures-elim (resources false) (is_zero created) _ _ _ _
                (λ e. rw e λ h k. ground arith) (λ e. rw e (tt, λ _ _ h k. ground arith)),
        ),
      )
    ],
  ),
)

accept_loop-Still :
    (n f : ℕ) (s t : List Handle)
    → holds (fd (pos f)) s ≡ true
    → Still s t
    → Ensures (resources false) t (accept_loop n (pos f)) (λ u _. Still s u)
unfolding accept_loop
accept_loop-Still zero f s t h still = still
accept_loop-Still (suc n) f s t h still = (
  tt,
  elim [
    | true ↦ λ _. still
    | false ↦ λ _. (
      still (fd (pos f)) h,
      elim [
        | pos zero ↦
            λ _. (tt, λ _ _. accept_loop-Still n f s _ h (λ g k. ground (arith, still g k)))
        | pos (suc c) ↦ λ _.
            Ensures-bind (resources false) (fd (pos (suc c)) ∷ t) (start_session (pos (suc c))) _
              (λ u _. Still t u) _ (start_session-Still (suc c) t)
              λ u _ more. accept_loop-Still n f s u h (λ g k. more g (still g k))
        | negsuc k ↦ λ _. (tt, λ _ _. accept_loop-Still n f s t h still)
      ],
    )
  ],
)

serve-owned :
    (n f : ℕ) → Ensures (resources false) (fd (pos f) ∷ stdio) (serve n (pos f)) (λ _ _. Unit)
unfolding serve
serve-owned n f = (
  ground arith,
  λ bound _.
      Ensures-elim (resources false) (is_zero bound) _ _ _ _
        (λ _. (
          ground arith,
          λ listened _.
              Ensures-elim (resources false) (is_zero listened) _ _ _ _
                (λ _. (
                  tt,
                  λ _ _.
                      Ensures-bind (resources false) (fd (pos f) ∷ stdio) (accept_loop n (pos f)) _
                        (λ t _. Still (fd (pos f) ∷ stdio) t) _
                        (accept_loop-Still n f (fd (pos f) ∷ stdio) _ (ground arith) (λ _ k. k))
                        λ t. elim [
                          | none ↦ λ _. tt
                          | some _ ↦ λ still. (still (fd (pos f)) (ground arith), λ _ _. tt)
                        ],
                ))
                (λ _. (tt, λ _ _. tt)),
        ))
        (λ _. (tt, λ _ _. tt)),
)

serve_failed : (n k : ℕ) → Ensures (resources false) stdio (serve n (negsuc k)) (λ _ _. Unit)
unfolding serve
serve_failed n k =
    (refl, elim [ pos b ↦ λ d. absurd (ground arith) | negsuc b ↦ λ _. (tt, λ _ _. tt) ])

-- However the calls answer, NULL from `malloc` included, the listening thread makes no call on a
-- descriptor that is closed, writes to no session that is not its own, and hands on only what it owns.
pub listen_thread-owned : (n : ℕ) → Ensures (resources false) stdio (listen_thread n) (λ _ _. Unit)
unfolding listen_thread
listen_thread-owned n = (
  tt,
  λ unlinked _.
      Ensures-bind (resources false) stdio _ _ (λ t _. t ≡ stdio) _
        (Ensures-elim (resources false) (is_zero unlinked) _ _ _ _ (λ _. refl)
          (λ _. (tt, λ _ _. refl)))
        λ t _ same.
          rw same (tt, elim [ pos f ↦ λ _. serve-owned n f | negsuc k ↦ λ _. serve_failed n k ]),
)
