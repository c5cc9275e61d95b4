-- ===== src/Net/TlsClient/Sending.antt =====
-- What net/tls_client.c owns, in which order it calls, and when it stops.
use linux_tutorial.Prelude.{
  ℕ, zero, suc, ◌≡◌, ◌≢◌, ◌⊎◌, inl, inr, refl, true, false, Option, none, some, List, [], ◌∷◌,
  arith, ◌||◌, if◌then◌else◌,
}
use linux_tutorial.Prelude.Int.{ℤ, pos, negsuc}
use linux_tutorial.Prog.Logic.{Ensures, Ensures-bind, Ensures-elim}
use linux_tutorial.Platform.{is_zero, is_error, is_null, is_negative, minus_one}
use linux_tutorial.Platform.Resources.{
  Handle, fd, mem, ctx, ssl, cert, holds, release, resources, stdio,
}
use linux_tutorial.Net.TlsClient.{show_cert, send_loop, talk, start, main}

release_absent : (h : Handle) (s : List Handle) → holds h s ≡ false → release h s ≡ s
release_absent h [] e = refl
release_absent h (g ∷ s) e = ground (arith, release_absent h s)

-- A string that was NULL, or was fresh, is given back.
line_freed :
    (a : ℕ) (s : List Handle)
    → holds (mem a) s ≡ false
    → ((is_null a || holds (mem a) (if is_null a then s else mem a ∷ s)) ≡ true)
      × (release (mem a) (if is_null a then s else mem a ∷ s) ≡ s)
line_freed zero s e = (refl, release_absent (mem 0) s e)
line_freed (suc a) s e = (ground arith, ground arith)

-- The certificate and both of its lines are given back.
show_cert-owned :
    (p : ℕ) (s : List Handle)
    → holds (ssl p) s ≡ true
    → Ensures (resources true) s (show_cert p) (λ t _. t ≡ s)
unfolding show_cert
show_cert-owned p s h = (
  h,
  elim [
    | zero ↦ λ _. (tt, λ _ _. refl)
    | suc x ↦ λ _. (
      tt,
      λ _ _. (
        ground arith,
        λ a d. (
          tt,
          λ _ _.
              let (ok_a, back_a) = line_freed a (cert (suc x) ∷ s) d in
              (
                ok_a,
                λ _ _. rw back_a (
                  ground arith,
                  λ b d'. (
                    tt,
                    λ _ _.
                        let (ok_b, back_b) = line_freed b (cert (suc x) ∷ s) d' in
                        (ok_b, λ _ _. rw back_b (ground arith, λ _ _. ground arith)),
                  ),
                ),
              ),
        ),
      ),
    )
  ],
)

send_loop-owned :
    (n p : ℕ) (s : List Handle)
    → holds (ssl p) s ≡ true
    → Ensures (resources true) s (send_loop n p) (λ t _. t ≡ s)
unfolding send_loop
send_loop-owned zero p s h = refl
send_loop-owned (suc n) p s h = (
  tt,
  elim [
    | true ↦ λ _. refl
    | false ↦ λ _. (
      h,
      λ w _.
          Ensures-elim (resources true) (is_negative w) _ _ _ _ (λ _. (tt, λ _ _. refl))
            λ _. (tt, λ _ _. send_loop-owned n p s h),
    )
  ],
)

abbrev up : ℕ → ℕ → List Handle
up c f = fd (pos f) ∷ ctx c ∷ stdio

-- A result of `main`: one that is no success may keep the context, and keeps nothing else.
abbrev Released : List Handle → Option ℤ → Type 0
Released t r = r ≢ none → (t ≡ stdio) ⊎ ((c : ℕ) × (t ≡ ctx c ∷ stdio) × (r ≡ some minus_one))

talk-owned : (n c f : ℕ) → Ensures (resources true) (up c f) (talk n c (pos f)) Released
unfolding talk
talk-owned n c f = (
  ground arith,
  elim [
    | zero ↦ λ d. absurd (d.1 refl)
    | suc p ↦ λ _. (
      ground arith,
      λ _ _. (
        ground arith,
        λ connected _.
            Ensures-bind (resources true) (ssl (suc p) ∷ up c f) _ _
              (λ t _. t ≡ ssl (suc p) ∷ up c f) _
              (Ensures-elim (resources true) (is_error connected) _ _ _ _ (λ _. (tt, λ _ _. refl))
                (λ _. (tt, λ _ _. show_cert-owned (suc p) (ssl (suc p) ∷ up c f) (ground arith))))
              λ t _ same. rw same (
                Ensures-bind (resources true) (ssl (suc p) ∷ up c f) (send_loop n (suc p)) _
                  (λ u _. u ≡ ssl (suc p) ∷ up c f) _
                  (send_loop-owned n (suc p) (ssl (suc p) ∷ up c f) (ground arith))
                  λ u. elim [
                    | none ↦ λ _ h. absurd (h refl)
                    | some _ ↦ λ same'. rw same' (
                      ground arith,
                      λ _ _. (
                        ground arith,
                        λ _ _. (ground arith, λ _ _. (ground arith, λ _ _ _. inl (ground arith))),
                      ),
                    )
                  ]),
      ),
    )
  ],
)

start-owned : (n c f : ℕ) → Ensures (resources true) (up c f) (start n c (pos f)) Released
unfolding start
start-owned n c f = (
  ground arith,
  λ connected _.
      Ensures-elim (resources true) (is_zero connected) _ _ _ _ (λ _. talk-owned n c f)
        (λ _. (tt, λ _ _. (ground arith, λ _ _ _. inr (c, ground arith, refl)))),
)

-- Without a socket `connect` fails.
start_failed :
    (n c k : ℕ) → Ensures (resources true) (ctx c ∷ stdio) (start n c (negsuc k)) Released
unfolding start
start_failed n c k = (
  refl,
  elim [
    | pos b ↦ λ d. absurd (ground arith)
    | negsuc b ↦ λ _. (tt, λ _ _. (refl, λ _ _ _. inr (c, refl, refl)))
  ],
)

-- Whatever fails (but memory is ample, so that SSL_new does not answer NULL), a `main` that returns has
-- freed its SSL and the certificate with its strings and closed its socket, each once, and used nothing
-- after; the context is freed too, unless the result is -1.
pub tls_client_main-Released : (n : ℕ) → Ensures (resources true) stdio (main n) Released
unfolding main
tls_client_main-Released n = (
  tt,
  λ _ _. (
    tt,
    λ _ _. (
      tt,
      λ _ _. (
        tt,
        λ _ _. (
          tt,
          λ _ _. (
            tt,
            λ _ _. (
              tt,
              λ _ _. (
                tt,
                λ _ _. (
                  tt,
                  λ _ _. (
                    tt,
                    λ _ _. (
                      tt,
                      elim [
                        | zero ↦ λ _. (tt, λ _ _ _. inl refl)
                        | suc c ↦ λ _. (
                          tt,
                          elim [
                            | pos f ↦ λ _. start-owned n (suc c) f
                            | negsuc k ↦ λ _. start_failed n (suc c) k
                          ],
                        )
                      ],
                    ),
                  ),
                ),
              ),
            ),
          ),
        ),
      ),
    ),
  ),
)
