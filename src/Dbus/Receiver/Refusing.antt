-- ===== src/Dbus/Receiver/Refusing.antt =====
-- What dbus/receiver.c does when the bus refuses it its name.
use linux_tutorial.Prelude.{ℕ, zero, suc, ◌≡◌, true, none, some, refl, String}
use linux_tutorial.Prelude.Int.{pos}
use linux_tutorial.Prog.Logic.{Ensures, Ensures-bind, Ensures-elim}
use linux_tutorial.Platform.{is_zero, eq_ℤ, is_null}
use linux_tutorial.Dbus.Bus.Errors.{Error, name_fails, unset}
use linux_tutorial.Dbus.Receiver.{show, receive_loop, listen, serve, main}

show-keeps : (text : String) (p : ℕ) (s : Error) → Ensures name_fails s (show text p) (λ t _. t ≡ s)
unfolding show
show-keeps text p s = (
  tt,
  λ _ _. (
    tt,
    λ _ _. (
      tt,
      λ _ _. (
        tt,
        λ _ _. (
          tt,
          λ _ _. (
            tt,
            λ _ _. (
              tt,
              λ _ _. (
                tt,
                λ _ _. (
                  tt,
                  λ _ _. (tt, λ _ _. (tt, λ _ _. (tt, λ _ _. (tt, λ _ _. (tt, λ _ _. refl))))),
                ),
              ),
            ),
          ),
        ),
      ),
    ),
  ),
)

receive_loop-keeps : (n c : ℕ) (s : Error) → Ensures name_fails s (receive_loop n c) (λ t _. t ≡ s)
unfolding receive_loop
receive_loop-keeps zero c s = refl
receive_loop-keeps (suc n) c s = (
  tt,
  λ r _.
      Ensures-elim name_fails (is_zero r) _ _ _ _ (λ _. (tt, λ _ _. refl))
        λ _. (
          tt,
          λ p _.
              Ensures-bind name_fails s _ _ (λ t _. t ≡ s) _
                (Ensures-elim name_fails (is_null p) _ _ _ _ (λ _. refl)
                  (λ _. show-keeps "receive message in loop\n" p s))
                λ t _ same. rw same (tt, λ _ _. receive_loop-keeps n c s),
        ),
)

-- The match was added with an error that was set already.
abbrev pub PassedSet : Error → Type 0
PassedSet s = s.added_with_set ≡ true

listen-PassedSet : (c : ℕ) (s : Error) → Ensures name_fails s (listen c) (λ t _. PassedSet t)
unfolding listen
listen-PassedSet c s = (
  tt,
  λ _ _. (
    tt,
    λ _ _. (
      tt,
      λ r d. rw d (
        tt,
        λ _ _. (
          tt,
          λ _ _. (
            tt,
            λ _ _. (
              tt,
              λ _ _. (
                tt,
                λ w _.
                    Ensures-bind name_fails _ _ _ (λ t _. PassedSet t) _
                      (Ensures-elim name_fails (eq_ℤ (pos 1) w) _ _ _ _ (λ _. refl)
                        (λ _. (tt, λ _ _. refl)))
                      λ t _ passed. (tt, λ _ _. passed),
              ),
            ),
          ),
        ),
      ),
    ),
  ),
)

-- Where there is a connection and the request of the name fails, the match is added, and it is added
-- with the error that the request has set.
pub receiver_main-PassedSet : (n : ℕ) → Ensures name_fails unset (main n) (λ t _. PassedSet t)
unfolding main serve
receiver_main-PassedSet n = (
  tt,
  λ _ _. (
    tt,
    elim [
      | zero ↦ λ d. absurd (d refl)
      | suc c ↦ λ _.
          Ensures-bind name_fails unset (listen (suc c)) _ (λ t _. PassedSet t) (λ t _. PassedSet t)
            (listen-PassedSet (suc c) unset)
            λ t _ passed.
              Ensures-bind name_fails t (receive_loop n (suc c)) _ (λ u _. u ≡ t)
                (λ u _. PassedSet u) (receive_loop-keeps n (suc c) t)
                λ u. elim [
                  | none ↦ λ same. rw same passed
                  | some _ ↦ λ same. rw same (tt, λ _ _. passed)
                ]
    ],
  ),
)
