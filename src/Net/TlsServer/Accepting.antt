-- ===== src/Net/TlsServer/Accepting.antt =====
-- The main thread of net/tls_server.c: what it owns at each return.
use linux_tutorial.Prelude.{
  ℕ, zero, suc, ◌≡◌, ◌≢◌, refl, true, false, Option, none, some, ◌⊎◌, inl, inr, List, ◌∷◌, arith,
}
use linux_tutorial.Prelude.Int.{ℤ, pos, negsuc}
use linux_tutorial.Prog.Logic.{Ensures, Ensures-bind, Ensures-elim}
use linux_tutorial.Platform.{Io, is_zero, is_positive, minus_one}
use linux_tutorial.Platform.Resources.{Handle, fd, mem, ctx, holds, resources, stdio}
use linux_tutorial.Net.TlsServer.{
  abandon_session, start_session, accept_loop, give_up, load_certificate, serve, main,
}

abandon_session-releases :
    (p c : ℕ) (s : List Handle)
    → Ensures
        (resources true)
        (mem (suc p) ∷ fd (pos c) ∷ s)
        (abandon_session (record { addr = suc p; sock = pos c }))
        (λ t _. t ≡ s)
unfolding abandon_session
abandon_session-releases p c s =
    (ground arith, λ _ _. (ground arith, λ _ _. (ground arith, λ _ _. (tt, λ _ _. ground arith))))

-- A client's socket goes to its thread, or is closed.
start_session-releases :
    (x c : ℕ) (s : List Handle)
    → Ensures (resources true) (fd (pos c) ∷ s) (start_session x (pos c)) (λ t _. t ≡ s)
unfolding start_session
start_session-releases x c s = (
  tt,
  λ _ _. (
    tt,
    elim [
      | zero ↦ λ d. absurd (d.1 refl)
      | suc p ↦ λ d. (
        ground arith,
        λ _ _. (
          ground arith,
          elim [
            | pos zero ↦ λ _. ground arith
            | pos (suc k) ↦ λ _. abandon_session-releases p c s
            | negsuc k ↦ λ _. abandon_session-releases p c s
          ],
        ),
      )
    ],
  ),
)

-- Standard input is open, so no client gets descriptor 0, which the loop would take for an error.
accept_loop-owned :
    (n x f : ℕ) (s : List Handle)
    → holds (fd (pos 0)) s ≡ true
    → Ensures
        (resources true)
        (fd (pos f) ∷ s)
        (accept_loop n x (pos f))
        (λ t _. t ≡ fd (pos f) ∷ s)
unfolding accept_loop
accept_loop-owned zero x f s h = refl
accept_loop-owned (suc n) x f s h = (
  tt,
  elim [
    | true ↦ λ _. refl
    | false ↦ λ _. (
      ground arith,
      elim [
        | pos zero ↦ λ d. absurd (ground arith)
        | pos (suc c) ↦ λ _.
            Ensures-bind (resources true) (fd (pos (suc c)) ∷ fd (pos f) ∷ s)
              (start_session x (pos (suc c))) _ (λ t _. t ≡ fd (pos f) ∷ s) _
              (start_session-releases x (suc c) (fd (pos f) ∷ s))
              λ t _ same. rw same (tt, λ _ _. accept_loop-owned n x f s h)
        | negsuc k ↦ λ _. (tt, λ _ _. (tt, λ _ _. accept_loop-owned n x f s h))
      ],
    )
  ],
)

-- A result of `main`: a return that is no success may keep the context, and keeps nothing else.
abbrev Released : List Handle → Option ℤ → Type 0
Released t r = r ≢ none → (t ≡ stdio) ⊎ ((c : ℕ) × (t ≡ ctx c ∷ stdio) × (r ≡ some minus_one))

serve-owned :
    (n c f : ℕ) → Ensures (resources true) (fd (pos f) ∷ ctx c ∷ stdio) (serve n c (pos f)) Released
unfolding serve
serve-owned n c f = (
  ground arith,
  λ bound _.
      Ensures-elim (resources true) (is_zero bound) _ _ _ _
        (λ _. (
          ground arith,
          λ listening _.
              Ensures-elim (resources true) (is_zero listening) _ _ _ _
                (λ _. (
                  tt,
                  λ _ _.
                      Ensures-bind (resources true) (fd (pos f) ∷ ctx c ∷ stdio)
                        (accept_loop n c (pos f)) _ (λ t _. t ≡ fd (pos f) ∷ ctx c ∷ stdio) _
                        (accept_loop-owned n c f (ctx c ∷ stdio) refl)
                        λ t. elim [
                          | none ↦ λ _ h. absurd (h refl)
                          | some _ ↦ λ same.
                              rw same
                                (ground arith, λ _ _. (ground arith, λ _ _ _. inl (ground arith)))
                        ],
                ))
                (λ _. (tt, λ _ _. (ground arith, λ _ _ _. inr (c, ground arith, refl)))),
        ))
        (λ _. (tt, λ _ _. (ground arith, λ _ _ _. inr (c, ground arith, refl)))),
)

-- Without a socket `bind` fails, and closing it closes nothing.
serve_failed :
    (n c k : ℕ) → Ensures (resources true) (ctx c ∷ stdio) (serve n c (negsuc k)) Released
unfolding serve
serve_failed n c k = (
  refl,
  elim [
    | pos b ↦ λ d. absurd (ground arith)
    | negsuc b ↦ λ _. (tt, λ _ _. (refl, λ _ _ _. inr (c, refl, refl)))
  ],
)

load_certificate-owned :
    (c : ℕ) (rest : Io (Option ℤ))
    → Ensures (resources true) (ctx c ∷ stdio) rest Released
    → Ensures (resources true) (ctx c ∷ stdio) (load_certificate c rest) Released
unfolding load_certificate
load_certificate-owned c rest h = (
  ground arith,
  λ cert _.
      Ensures-elim (resources true) (is_positive cert) _ _ _ _
        (λ _. (
          ground arith,
          λ key _.
              Ensures-elim (resources true) (is_positive key) _ _ _ _
                (λ _. (
                  ground arith,
                  λ checked _.
                      Ensures-elim (resources true) (is_zero checked) _ _ _ _ (λ _. kept) (λ _. h),
                ))
                (λ _. kept),
        ))
        (λ _. kept),
)
  where
    kept : Ensures (resources true) (ctx c ∷ stdio) give_up Released
    kept = (tt, λ _ _ _. inr (c, refl, refl))

-- Whatever fails (but memory is ample), a `main` that returns has closed every descriptor, freed or
-- handed over every session and used nothing after; the context is freed too, unless the result is
-- -1.
pub tls_server_main-Released : (n : ℕ) → Ensures (resources true) stdio (main n) Released
unfolding main
tls_server_main-Released n = (
  tt,
  λ _ _. (
    tt,
    λ _ _. (
      tt,
      λ _ _. (
        tt,
        λ _ _. (
          tt,
          λ _ _. (
            tt,
            λ _ _. (
              tt,
              λ _ _. (
                tt,
                λ _ _. (
                  tt,
                  λ _ _. (
                    tt,
                    λ _ _. (
                      tt,
                      elim [
                        | zero ↦ λ _. (tt, λ _ _ _. inl refl)
                        | suc c ↦ λ _. load_certificate-owned (suc c) _ (
                          tt,
                          elim [
                            | pos f ↦ λ _. serve-owned n (suc c) f
                            | negsuc k ↦ λ _. serve_failed n (suc c) k
                          ],
                        )
                      ],
                    ),
                  ),
                ),
              ),
            ),
          ),
        ),
      ),
    ),
  ),
)
