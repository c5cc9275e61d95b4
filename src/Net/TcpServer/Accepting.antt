-- ===== src/Net/TcpServer/Accepting.antt =====
-- The main thread of net/tcp_server.c: what it owns at each return.
use linux_tutorial.Prelude.{ℕ, zero, suc, ◌≡◌, ◌≢◌, refl, true, false, none, some, List, ◌∷◌, arith}
use linux_tutorial.Prelude.Int.{pos, negsuc}
use linux_tutorial.Prog.Logic.{Ensures, Ensures-bind, Ensures-elim}
use linux_tutorial.Platform.{is_zero}
use linux_tutorial.Platform.Resources.{Handle, fd, mem, holds, resources, stdio}
use linux_tutorial.Net.TcpServer.{abandon_session, start_session, accept_loop, serve, main}

abandon_session-releases :
    (p c : ℕ) (s : List Handle)
    → Ensures
        (resources true)
        (mem (suc p) ∷ fd (pos c) ∷ s)
        (abandon_session (record { addr = suc p; sock = pos c }))
        (λ t _. t ≡ s)
unfolding abandon_session
abandon_session-releases p c s =
    (ground arith, λ _ _. (ground arith, λ _ _. (ground arith, λ _ _. (tt, λ _ _. ground arith))))

-- A client's socket goes to its thread, or is closed.
start_session-releases :
    (c : ℕ) (s : List Handle)
    → Ensures (resources true) (fd (pos c) ∷ s) (start_session (pos c)) (λ t _. t ≡ s)
unfolding start_session
start_session-releases c s = (
  tt,
  λ _ _. (
    tt,
    elim [
      | zero ↦ λ d. absurd (d.1 refl)
      | suc p ↦ λ d. (
        ground arith,
        λ _ _. (
          ground arith,
          elim [
            | pos zero ↦ λ _. ground arith
            | pos (suc k) ↦ λ _. abandon_session-releases p c s
            | negsuc k ↦ λ _. abandon_session-releases p c s
          ],
        ),
      )
    ],
  ),
)

-- Standard input is open, so no client gets descriptor 0, which the loop would take for an error.
accept_loop-owned :
    (n f : ℕ) (s : List Handle)
    → holds (fd (pos 0)) s ≡ true
    → Ensures (resources true) (fd (pos f) ∷ s) (accept_loop n (pos f)) (λ t _. t ≡ fd (pos f) ∷ s)
unfolding accept_loop
accept_loop-owned zero f s h = refl
accept_loop-owned (suc n) f s h = (
  tt,
  elim [
    | true ↦ λ _. refl
    | false ↦ λ _. (
      ground arith,
      elim [
        | pos zero ↦ λ d. absurd (ground arith)
        | pos (suc c) ↦ λ _.
            Ensures-bind (resources true) (fd (pos (suc c)) ∷ fd (pos f) ∷ s)
              (start_session (pos (suc c))) _ (λ t _. t ≡ fd (pos f) ∷ s) _
              (start_session-releases (suc c) (fd (pos f) ∷ s))
              λ t _ same. rw same (tt, λ _ _. accept_loop-owned n f s h)
        | negsuc k ↦ λ _. (tt, λ _ _. (tt, λ _ _. accept_loop-owned n f s h))
      ],
    )
  ],
)

serve-owned :
    (n f : ℕ)
    → Ensures (resources true) (fd (pos f) ∷ stdio) (serve n (pos f)) (λ t r. r ≢ none → t ≡ stdio)
unfolding serve
serve-owned n f = (
  ground arith,
  λ bound _.
      Ensures-elim (resources true) (is_zero bound) _ _ _ _
        (λ _. (
          ground arith,
          λ listening _.
              Ensures-elim (resources true) (is_zero listening) _ _ _ _
                (λ _. (
                  tt,
                  λ _ _.
                      Ensures-bind (resources true) (fd (pos f) ∷ stdio) (accept_loop n (pos f)) _
                        (λ t _. t ≡ fd (pos f) ∷ stdio) _ (accept_loop-owned n f stdio refl)
                        λ t. elim [
                          | none ↦ λ _ h. absurd (h refl)
                          | some _ ↦ λ same. rw same (ground arith, λ _ _ _. ground arith)
                        ],
                ))
                (λ _. (tt, λ _ _. (ground arith, λ _ _ _. ground arith))),
        ))
        (λ _. (tt, λ _ _. (ground arith, λ _ _ _. ground arith))),
)

-- Without a socket `bind` fails, and closing it closes nothing.
serve_failed :
    (n k : ℕ) → Ensures (resources true) stdio (serve n (negsuc k)) (λ t r. r ≢ none → t ≡ stdio)
unfolding serve
serve_failed n k = (
  refl,
  elim [ pos b ↦ λ d. absurd (ground arith) | negsuc b ↦ λ _. (tt, λ _ _. (refl, λ _ _ _. refl)) ],
)

-- Whatever fails, when `main` returns every descriptor that it opened is closed or has gone to a
-- thread, every session is freed or has gone to a thread, and nothing was used after.
pub main-releases : (n : ℕ) → Ensures (resources true) stdio (main n) (λ t r. r ≢ none → t ≡ stdio)
unfolding main
main-releases n = (
  tt,
  λ _ _. (
    tt,
    λ _ _. (
      tt,
      λ _ _. (
        tt,
        λ _ _. (
          tt,
          λ _ _. (
            tt,
            λ _ _. (
              tt,
              λ _ _. (tt, elim [ pos f ↦ λ _. serve-owned n f | negsuc k ↦ λ _. serve_failed n k ]),
            ),
          ),
        ),
      ),
    ),
  ),
)
