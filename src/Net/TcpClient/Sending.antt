-- ===== src/Net/TcpClient/Sending.antt =====
-- What net/tcp_client.c owns, in which order it calls, and when it stops.
use linux_tutorial.Prelude.{
  ℕ, zero, suc, ◌+◌, ◌<◌, ◌≡◌, ◌≢◌, refl, true, false, none, some, List, ◌∷◌, arith,
}
use linux_tutorial.Prelude.Int.{ℤ, pos, negsuc}
use linux_tutorial.Prog.Logic.{Ensures, Ensures-bind, Ensures_mono, Ensures-elim}
use linux_tutorial.Platform.{is_zero, is_negative}
use linux_tutorial.Platform.Resources.{Handle, fd, resources, stdio}
use linux_tutorial.Prog.Both.{both, Ensures-both}
use linux_tutorial.Platform.Deadline.{deadline}
use linux_tutorial.Platform.Protocol.{protocol, unused, connected}
use linux_tutorial.Net.TcpClient.{send_loop, talk, main}

send_loop-owned :
    (n f : ℕ) (s : List Handle)
    → Ensures (resources false) (fd (pos f) ∷ s) (send_loop n (pos f)) (λ t _. t ≡ fd (pos f) ∷ s)
unfolding send_loop
send_loop-owned zero f s = refl
send_loop-owned (suc n) f s = (
  tt,
  elim [
    | true ↦ λ _. refl
    | false ↦ λ _. (
      ground arith,
      λ w _.
          Ensures-elim (resources false) (is_negative w) _ _ _ _ (λ _. (tt, λ _ _. refl))
            λ _. (tt, λ _ _. send_loop-owned n f s),
    )
  ],
)

talk-owned :
    (n f : ℕ)
    → Ensures (resources false) (fd (pos f) ∷ stdio) (talk n (pos f)) (λ t r. r ≢ none → t ≡ stdio)
unfolding talk
talk-owned n f = (
  ground arith,
  λ c _.
      Ensures-elim (resources false) (is_zero c) _ _ _ _
        (λ _.
          Ensures-bind (resources false) (fd (pos f) ∷ stdio) (send_loop n (pos f)) _
            (λ t _. t ≡ fd (pos f) ∷ stdio) _ (send_loop-owned n f stdio)
            λ t. elim [
              | none ↦ λ _ h. absurd (h refl)
              | some _ ↦ λ same. rw same (ground arith, λ _ _ _. ground arith)
            ])
        (λ _. (tt, λ _ _. (ground arith, λ _ _ _. ground arith))),
)

-- Without a socket `connect` fails.
talk_failed :
    (n k : ℕ) → Ensures (resources false) stdio (talk n (negsuc k)) (λ t r. r ≢ none → t ≡ stdio)
unfolding talk
talk_failed n k = (
  refl,
  elim [ pos b ↦ λ d. absurd (ground arith) | negsuc b ↦ λ _. (tt, λ _ _. (refl, λ _ _ _. refl)) ],
)

main-releases : (n : ℕ) → Ensures (resources false) stdio (main n) (λ t r. r ≢ none → t ≡ stdio)
unfolding main
main-releases n = (
  tt,
  λ _ _. (
    tt,
    λ _ _. (
      tt,
      λ _ _. (
        tt,
        λ _ _. (
          tt,
          λ _ _. (
            tt,
            λ _ _. (
              tt,
              λ _ _. (tt, elim [ pos f ↦ λ _. talk-owned n f | negsuc k ↦ λ _. talk_failed n k ]),
            ),
          ),
        ),
      ),
    ),
  ),
)

send_loop-InOrder : (n : ℕ) (f : ℤ) → Ensures protocol (connected f) (send_loop n f) (λ _ _. Unit)
unfolding send_loop
send_loop-InOrder zero f = tt
send_loop-InOrder (suc n) f = (
  tt,
  elim [
    | true ↦ λ _. tt
    | false ↦ λ _. (
      refl,
      λ w _.
          Ensures-elim protocol (is_negative w) _ _ _ _ (λ _. (tt, λ _ _. tt))
            λ _. (tt, λ _ _. send_loop-InOrder n f),
    )
  ],
)

talk-InOrder : (n : ℕ) (f : ℤ) → Ensures protocol unused (talk n f) (λ _ _. Unit)
unfolding talk
talk-InOrder n f = (
  tt,
  λ c _.
      Ensures-elim protocol (is_zero c) _ _ _ _
        (λ e. rw e (
          Ensures-bind protocol (connected f) (send_loop n f) _ (λ _ _. Unit) _
            (send_loop-InOrder n f) λ t. elim [ none ↦ λ _. tt | some _ ↦ λ _. (tt, λ _ _. tt) ]))
        (λ _. (tt, λ _ _. (tt, λ _ _. tt))),
)

-- Nothing is sent but on the socket, and only after it is connected.
tcp_client_main-InOrder : (n : ℕ) → Ensures protocol unused (main n) (λ _ _. Unit)
unfolding main
tcp_client_main-InOrder n = (
  tt,
  λ _ _. (
    tt,
    λ _ _. (
      tt,
      λ _ _. (tt, λ _ _. (tt, λ _ _. (tt, λ _ _. (tt, λ _ _. (tt, λ f _. talk-InOrder n f))))),
    ),
  ),
)

send_loop-ends :
    (n s m : ℕ) (f : ℤ)
    → m < s + n
    → 0 < n
    → Ensures (deadline m) s (send_loop n f) (λ t r. r ≢ none)
unfolding send_loop
send_loop-ends zero s m f h p = absurd (omega arith)
send_loop-ends (suc n) s m f h p = (
  tt,
  elim [
    | true ↦ λ _ x. cc
    | false ↦ λ late. (
      tt,
      λ w _.
          Ensures-elim (deadline m) (is_negative w) _ _ _ _ (λ _. (tt, λ _ _ x. cc))
            λ _. (tt, λ _ _. send_loop-ends n (suc s) m f (omega arith) (ground arith)),
    )
  ],
)

talk-ends : (n m : ℕ) (f : ℤ) → m < n → Ensures (deadline m) 0 (talk n f) (λ t r. r ≢ none)
unfolding talk
talk-ends n m f h = (
  tt,
  λ c _.
      Ensures-elim (deadline m) (is_zero c) _ _ _ _
        (λ _.
          Ensures-bind (deadline m) 0 (send_loop n f) _ (λ t r. r ≢ none) _
            (send_loop-ends n 0 m f (omega arith) (omega arith))
            λ t. elim [ none ↦ λ ends. absurd (ends refl) | some _ ↦ λ _. (tt, λ _ _ x. cc) ])
        (λ _. (tt, λ _ _. (tt, λ _ _ x. cc))),
)

main-ends : (n m : ℕ) → m < n → Ensures (deadline m) 0 (main n) (λ t r. r ≢ none)
unfolding main
main-ends n m h = (
  tt,
  λ _ _. (
    tt,
    λ _ _. (
      tt,
      λ _ _. (tt, λ _ _. (tt, λ _ _. (tt, λ _ _. (tt, λ _ _. (tt, λ f _. talk-ends n m f h))))),
    ),
  ),
)

-- If the flag is read as set at its read number `m` at the latest, `m + 1` rounds are enough:
-- whatever calls fail, the client returns with its socket closed, once, and never used after.
pub tcp_client_main_total :
    (n m : ℕ)
    → m < n
    → Ensures
        (both (resources false) (deadline m))
        (stdio, 0)
        (main n)
        (λ t r. (t.0 ≡ stdio) × (r ≢ none))
tcp_client_main_total n m h =
    Ensures_mono (both (resources false) (deadline m)) (stdio, 0) (main n) _ _
      (Ensures-both (resources false) (deadline m) (main n) stdio 0 _ _ (main-releases n)
        (main-ends n m h))
      λ t r g. (g.0 g.1, g.1)
