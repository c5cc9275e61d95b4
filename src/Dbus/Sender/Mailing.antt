-- ===== src/Dbus/Sender/Mailing.antt =====
-- What dbus/sender.c sends.
use linux_tutorial.Prelude.{ℕ, zero, suc, ◌≡◌, true, [], ◌∷◌, ◌==◌, refl, arith}
use linux_tutorial.Prelude.Int.{pos}
use linux_tutorial.Prog.Logic.{Ensures, Ensures-bind, Ensures-elim}
use linux_tutorial.Platform.{eq_ℤ}
use linux_tutorial.Dbus.Bus.{int32, string}
use linux_tutorial.Dbus.Bus.Mail.{Mail, signal, method_call, Outbox, outbox, nothing_sent}
use linux_tutorial.Dbus.Sender.{
  dbus_path, dbus_iface, append, send, send_signal, send_method_call, talk, main,
}

eq_self : (p : ℕ) → (p == p) ≡ true
eq_self p = ground arith

abbrev pub the_signal : Mail
the_signal = signal dbus_path dbus_iface "test" (int32 10 ∷ [])

abbrev pub the_call : Mail
the_call = method_call dbus_iface dbus_path dbus_iface "test" (int32 1989 ∷ string "Hello" ∷ [])

send_signal-sends :
    (c : ℕ) (s : Outbox)
    → s.sent ≡ []
    → Ensures outbox s (send_signal c) (λ t _. t.sent ≡ the_signal ∷ [])
unfolding send_signal append send
send_signal-sends c s none_sent = (
  tt,
  elim [
    | zero ↦ λ d. absurd (d refl)
    | suc p ↦ λ _. (
      tt,
      λ _ _. (
        tt,
        λ r d.
            rw (d, eq_self (suc p))
              (tt, λ r d. rw (d, eq_self (suc p), none_sent) (tt, λ _ _. refl)),
      ),
    )
  ],
)

send_method_call-sends :
    (c : ℕ) (s : Outbox)
    → s.sent ≡ the_signal ∷ []
    → Ensures outbox s (send_method_call c) (λ t _. t.sent ≡ the_signal ∷ the_call ∷ [])
unfolding send_method_call append send
send_method_call-sends c s one_sent = (
  tt,
  elim [
    | zero ↦ λ d. absurd (d refl)
    | suc p ↦ λ _. (
      tt,
      λ _ _. (
        tt,
        λ r d.
            rw (d, eq_self (suc p))
              (
                tt,
                λ r d. rw (d, eq_self (suc p)) (tt, λ r d. rw (d, eq_self (suc p), one_sent) refl),
              ),
      ),
    )
  ],
)

-- Where the bus does what it is asked, `main` sends the signal with its number and then the method
-- call with its number and text, nothing else, and flushes them, whether or not it got its name.
pub sender_main-sends :
    Ensures outbox nothing_sent main
      (λ t _. (t.sent ≡ the_signal ∷ the_call ∷ []) × (t.flushed ≡ true))
unfolding main talk
sender_main-sends = (
  tt,
  λ _ _. (
    tt,
    elim [
      | zero ↦ λ d. absurd (d refl)
      | suc c ↦ λ _. (
        tt,
        λ _ _. (
          tt,
          λ _ _. (
            tt,
            λ r _.
                Ensures-bind outbox nothing_sent _ _ (λ t _. t.sent ≡ []) _
                  (Ensures-elim outbox (eq_ℤ (pos 1) r) _ _ _ _ (λ _. refl)
                    (λ _. (tt, λ _ _. refl)))
                  λ s _ none_sent.
                    Ensures-bind outbox s (send_signal (suc c)) _ _ _
                      (send_signal-sends (suc c) s none_sent)
                      λ t _ one_sent.
                        Ensures-bind outbox t (send_method_call (suc c)) _ _ _
                          (send_method_call-sends (suc c) t one_sent)
                          λ u _ both_sent. (tt, λ _ _. (tt, λ _ _. (both_sent, refl))),
          ),
        ),
      )
    ],
  ),
)
