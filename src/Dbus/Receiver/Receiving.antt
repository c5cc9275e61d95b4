-- ===== src/Dbus/Receiver/Receiving.antt =====
-- The references of dbus/receiver.c, and its end.
use linux_tutorial.Prelude.{
  ℕ, zero, suc, ◌+◌, ◌<◌, ◌≡◌, ◌≢◌, true, Option, none, some, List, [], ◌∷◌, refl, String, arith,
}
use linux_tutorial.Prelude.Int.{pos}
use linux_tutorial.Prog.Logic.{Ensures, Ensures-bind, Ensures-elim}
use linux_tutorial.Platform.{is_zero, eq_ℤ}
use linux_tutorial.Dbus.Bus.References.{Refs, references, has, nothing}
use linux_tutorial.Dbus.Receiver.{show, receive_loop, listen, serve, main}

show-keeps :
    (m p : ℕ) (first : String) (s : Refs)
    → has p s.messages ≡ true
    → Ensures (references m) s (show first p) (λ t _. t ≡ s)
unfolding show
show-keeps m p first s h = (
  tt,
  λ _ _. (
    h,
    λ _ _. (
      h,
      λ _ _. (
        h,
        λ _ _. (
          h,
          λ _ _. (
            h,
            λ _ _. (
              h,
              λ _ _. (
                tt,
                λ _ _. (
                  tt,
                  λ _ _. (tt, λ _ _. (tt, λ _ _. (tt, λ _ _. (tt, λ _ _. (tt, λ _ _. refl))))),
                ),
              ),
            ),
          ),
        ),
      ),
    ),
  ),
)

-- The program with its connection, all that it popped still held.
abbrev at : ℕ → List ℕ → ℕ → Refs
at c ms k = record { connections = c ∷ []; messages = ms; given = ms; reads = k }

abbrev StillHeld : ℕ → Refs → Type 0
StillHeld c t = (t.connections ≡ c ∷ []) × (t.messages ≡ t.given)

has_head : (p : ℕ) (ps : List ℕ) → has p (p ∷ ps) ≡ true
has_head p ps = ground arith

listen-keeps : (m c : ℕ) → Ensures (references m) (at c [] 0) (listen c) (λ t _. t ≡ at c [] 0)
unfolding listen
listen-keeps m c = (
  has_head c [],
  λ _ _. (
    tt,
    λ _ _. (
      has_head c [],
      λ r _.
          Ensures-bind (references m) (at c [] 0) _ _ (λ t _. t ≡ at c [] 0) _
            (Ensures-elim (references m) (eq_ℤ (pos 1) r) _ _ _ _ (λ _. refl)
              (λ _. (tt, λ _ _. refl)))
            λ t _ same. rw same (
              has_head c [],
              λ _ _. (
                has_head c [],
                λ _ _. (
                  has_head c [],
                  λ _ _. (
                    has_head c [],
                    λ w _.
                        Ensures-bind (references m) (at c [] 0) _ _ (λ t _. t ≡ at c [] 0) _
                          (Ensures-elim (references m) (eq_ℤ (pos 1) w) _ _ _ _ (λ _. refl)
                            (λ _. (tt, λ _ _. refl)))
                          λ t _ same. rw same (has_head c [], λ _ _. refl),
                  ),
                ),
              ),
            ),
    ),
  ),
)

receive_loop-ends :
    (n m c k : ℕ) (ms : List ℕ)
    → m < k + n
    → 0 < n
    → Ensures (references m) (at c ms k) (receive_loop n c) (λ t r. StillHeld c t × (r ≢ none))
unfolding receive_loop
receive_loop-ends zero m c k ms h some_left = absurd (omega arith)
receive_loop-ends (suc zero) m c k ms h some_left =
    (has_head c [], λ r d. rw (d (omega arith)) (tt, λ _ _. ((refl, refl), λ x. cc)))
receive_loop-ends (suc (suc n)) m c k ms h some_left = (
  has_head c [],
  λ r d.
      Ensures-elim (references m) (is_zero r) _ _ _ _ (λ _. (tt, λ _ _. ((refl, refl), λ x. cc)))
        λ _. (
          has_head c [],
          elim [
            | zero ↦ λ _.
                (tt, λ _ _. receive_loop-ends (suc n) m c (suc k) ms (omega arith) (omega arith))
            | suc p ↦ λ _.
                Ensures-bind (references m) (at c (suc p ∷ ms) (suc k))
                  (show "receive message in loop\n" (suc p)) _
                  (λ t _. t ≡ at c (suc p ∷ ms) (suc k))
                  (λ t (r : Option (Unit {0})). StillHeld c t × (r ≢ none))
                  (show-keeps m (suc p) "receive message in loop\n" (at c (suc p ∷ ms) (suc k))
                    (has_head (suc p) ms))
                  λ t _ same. rw same (
                    tt,
                    λ _ _.
                        receive_loop-ends (suc n) m c (suc k) (suc p ∷ ms) (omega arith)
                          (omega arith),
                  )
          ],
        ),
)

-- If the connection is lost at read number `m` at the latest, `m + 1` rounds are enough: `main`
-- returns 0, it uses no connection and no message that it does not hold, and at its end it holds no
-- connection; but it still holds every message that it popped.
pub receiver_main_total :
    (n m : ℕ)
    → m < n
    → Ensures
        (references m)
        nothing
        (main n)
        (λ t r. (t.connections ≡ []) × (t.messages ≡ t.given) × (r ≡ some (pos 0)))
unfolding main serve
receiver_main_total n m h = (
  tt,
  λ _ _. (
    tt,
    elim [
      | zero ↦ λ _. (tt, λ _ _. (tt, λ _ _. (refl, refl, refl)))
      | suc c ↦ λ _.
          Ensures-bind (references m) (at (suc c) [] 0) (listen (suc c)) _ _ _
            (listen-keeps m (suc c))
            λ t _ same. rw same (
              Ensures-bind (references m) (at (suc c) [] 0) (receive_loop n (suc c)) _
                (λ t r. StillHeld (suc c) t × (r ≢ none)) _
                (receive_loop-ends n m (suc c) 0 [] (omega arith) (omega arith))
                λ t. elim [
                  | none ↦ λ g. absurd (g.1 refl)
                  | some _ ↦
                      λ g. (ground (arith, g.0.0), λ _ _. (ground (arith, g.0.0), g.0.1, refl))
                ])
    ],
  ),
)
