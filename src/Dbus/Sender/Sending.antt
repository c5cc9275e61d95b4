-- ===== src/Dbus/Sender/Sending.antt =====
-- The references of dbus/sender.c.
use linux_tutorial.Prelude.{ℕ, zero, suc, ◌≡◌, true, List, [], ◌∷◌, refl, arith}
use linux_tutorial.Prelude.Int.{pos}
use linux_tutorial.Prog.Logic.{Ensures, Ensures-bind, Ensures_mono, Ensures-elim}
use linux_tutorial.Platform.{is_zero, eq_ℤ}
use linux_tutorial.Dbus.Bus.{Arg, int32, string}
use linux_tutorial.Dbus.Bus.References.{Refs, references, has, nothing}
use linux_tutorial.Dbus.Sender.{append, send, send_signal, send_method_call, talk, main}

append-keeps :
    (m p : ℕ) (a : Arg) (s : Refs)
    → has p s.messages ≡ true
    → Ensures (references m) s (append p a) (λ t _. t ≡ s)
unfolding append
append-keeps m p a s h =
    (h, λ r _. Ensures-elim (references m) (is_zero r) _ _ _ _ (λ _. (tt, λ _ _. refl)) (λ _. refl))

send-keeps :
    (m c p : ℕ) (s : Refs)
    → has c s.connections ≡ true
    → has p s.messages ≡ true
    → Ensures (references m) s (send c p) (λ t _. t ≡ s)
unfolding send
send-keeps m c p s h h' = (
  (h, h'),
  λ r _. Ensures-elim (references m) (eq_ℤ (pos 1) r) _ _ _ _ (λ _. refl) (λ _. (tt, λ _ _. refl)),
)

-- The program with its connection and no message that it holds.
abbrev at : ℕ → List ℕ → Refs
at c ms = record { connections = c ∷ []; messages = ms; given = ms; reads = 0 }

has_head : (p : ℕ) (ps : List ℕ) → has p (p ∷ ps) ≡ true
has_head p ps = ground arith

send_signal-keeps :
    (m c : ℕ) → Ensures (references m) (at c []) (send_signal c) (λ t _. t ≡ at c [])
unfolding send_signal
send_signal-keeps m c = (
  tt,
  elim [
    | zero ↦ λ _. refl
    | suc p ↦ λ _. (
      has_head (suc p) [],
      λ _ _.
          let s : Refs = record {
            connections = c ∷ [];
            messages = suc p ∷ [];
            given = [];
            reads = 0;
          } in
          Ensures-bind (references m) s (append (suc p) (int32 10)) _ (λ t _. t ≡ s) _
            (append-keeps m (suc p) (int32 10) s (has_head (suc p) []))
            λ t _ same. rw same (
              Ensures-bind (references m) s (send c (suc p)) _ (λ t _. t ≡ s) _
                (send-keeps m c (suc p) s (has_head c []) (has_head (suc p) []))
                λ t _ same. rw same (has_head (suc p) [], λ _ _. ground arith)),
    )
  ],
)

-- The connection is held, and of messages the method call if there is one.
abbrev OnlyCall : ℕ → Refs → Type 0
OnlyCall c t = (t.connections ≡ c ∷ []) × (t.messages ≡ t.given)

send_method_call-keeps :
    (m c : ℕ) → Ensures (references m) (at c []) (send_method_call c) (λ t _. OnlyCall c t)
unfolding send_method_call
send_method_call-keeps m c = (
  tt,
  elim [
    | zero ↦ λ _. (refl, refl)
    | suc p ↦ λ _. (
      has_head (suc p) [],
      λ _ _.
          let s : Refs = at c (suc p ∷ []) in
          Ensures-bind (references m) s (append (suc p) (int32 1989)) _ (λ t _. t ≡ s) _
            (append-keeps m (suc p) (int32 1989) s (has_head (suc p) []))
            λ t _ same. rw same (
              Ensures-bind (references m) s (append (suc p) (string "Hello")) _ (λ t _. t ≡ s) _
                (append-keeps m (suc p) (string "Hello") s (has_head (suc p) []))
                λ t _ same. rw same (
                  Ensures_mono (references m) s (send c (suc p)) (λ t _. t ≡ s) _
                    (send-keeps m c (suc p) s (has_head c []) (has_head (suc p) []))
                    λ t _ same. rw same (refl, refl))),
    )
  ],
)

-- Whatever fails, `main` uses no connection and no message that it does not hold, and at its end it
-- holds no connection and not the signal; but it holds the method call, if there was one.
pub sender_main-holds :
    (m : ℕ)
    → Ensures (references m) nothing main (λ t _. (t.connections ≡ []) × (t.messages ≡ t.given))
unfolding main talk
sender_main-holds m = (
  tt,
  λ _ _. (
    tt,
    elim [
      | zero ↦ λ _. (tt, λ _ _. (tt, λ _ _. (refl, refl)))
      | suc c ↦ λ _. (
        has_head (suc c) [],
        λ _ _. (
          tt,
          λ _ _. (
            has_head (suc c) [],
            λ r _.
                Ensures-bind (references m) (at (suc c) []) _ _ (λ t _. t ≡ at (suc c) []) _
                  (Ensures-elim (references m) (eq_ℤ (pos 1) r) _ _ _ _ (λ _. refl)
                    (λ _. (tt, λ _ _. refl)))
                  λ t _ same. rw same (
                    Ensures-bind (references m) (at (suc c) []) (send_signal (suc c)) _ _ _
                      (send_signal-keeps m (suc c))
                      λ t _ same. rw same (
                        Ensures-bind (references m) (at (suc c) []) (send_method_call (suc c)) _ _ _
                          (send_method_call-keeps m (suc c))
                          λ t _ g. (
                            ground (arith, g.0),
                            λ _ _. (ground (arith, g.0), λ _ _. (ground (arith, g.0), g.1)),
                          ))),
          ),
        ),
      )
    ],
  ),
)
