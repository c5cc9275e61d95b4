-- ===== src/Net/Stream/Talking.antt =====
-- What each end of the connection does with it, whatever the other does.
use linux_tutorial.Prelude.{
  ℕ, zero, suc, ◌≤◌, ◌≡◌, refl, true, false, Option, none, some, List, [], ◌∷◌, map, arith,
}
use linux_tutorial.Prelude.Int.{ℤ, pos, negsuc, neg_part}
use linux_tutorial.Prog.{ret, ◌>>◌}
use linux_tutorial.Prog.Logic.{Monitor, Ensures, Ensures-bind, Ensures-elim}
use linux_tutorial.Platform.{
  Call, Reply, Io, Session, filled, send, recv, printf_text, is_negative, is_error, is_zero, log,
  log_text, error, warn, info,
}
use linux_tutorial.Net.TcpClient.{greeting, send_loop}
use linux_tutorial.Net.TcpServer.{buffer_size, session_loop, session_process_thread}
use linux_tutorial.Net.Stream.{held_after}

-- The client sends the greeting and does nothing else with the connection.
abbrev pub Greets : Call → Type 0
Greets (send _ buf) = buf ≡ map some greeting
Greets (recv _ _) = ⊥
Greets (printf_text _ _ _) = ⊥
Greets _ = Unit

abbrev pub greeter : Monitor Call Reply
greeter = record {
  State = Unit {0};
  Allowed = λ _. Greets;
  Documented = λ _ _ _. Unit;
  next = λ _ _ _. tt;
}

-- The session receives when it holds nothing, prints what it holds out of the array, and sends nothing.
abbrev pub ShowsHeld : List (List ℕ) → Call → Type 0
ShowsHeld held (send _ _) = ⊥
ShowsHeld held (recv _ n) = (held ≡ []) × (n ≡ buffer_size)
ShowsHeld held (printf_text _ _ buf) =
    (bytes : List ℕ) × (held ≡ bytes ∷ []) × (buf ≡ filled buffer_size bytes)
ShowsHeld held _ = Unit

abbrev pub MinusOne : (c : Call) → Reply c → Type 0
MinusOne (recv _ _) r = neg_part r.size ≤ 1
MinusOne _ r = Unit

abbrev pub shower : Monitor Call Reply
shower = record {
  State = List (List ℕ);
  Allowed = ShowsHeld;
  Documented = λ _. MinusOne;
  next = held_after;
}

pub send_loop-greets : (n : ℕ) (sock : ℤ) → Ensures greeter tt (send_loop n sock) (λ _ _. Unit)
unfolding send_loop
send_loop-greets zero sock = tt
send_loop-greets (suc n) sock = (
  tt,
  elim [
    | true ↦ λ _. tt
    | false ↦ λ _. (
      refl,
      λ wsize _.
          Ensures-elim greeter (is_negative wsize) _ _ _ _ (λ _. (tt, λ _ _. tt))
            λ _. (tt, λ _ _. send_loop-greets n sock),
    )
  ],
)

-- What was received is printed, and the loop goes on with nothing held.
received-shows :
    (f : ℤ) (size : ℤ) (bytes : List ℕ) (rest : Io (Option (Unit {0})))
    → neg_part size ≤ 1
    → Ensures shower [] rest (λ _ _. Unit)
    → Ensures shower
        (held_after [] (recv f buffer_size) (record { size = size; bytes = bytes }))
        (elim (is_error size) [
          | true ↦ do log error "session recv failed with [%d]%s"; ret (some tt)
          | false ↦ elim (is_zero size) [
            | true ↦ do log warn "session closed"; ret (some tt)
            | false ↦ do log_text info "receive data: %s" (filled buffer_size bytes); rest
          ]
        ])
        (λ _ _. Unit)
received-shows f (pos zero) bytes rest h goes_on = (tt, λ _ _. tt)
received-shows f (pos (suc n)) bytes rest h goes_on = ((bytes, refl, refl), λ _ _. goes_on)
received-shows f (negsuc zero) bytes rest h goes_on = (tt, λ _ _. tt)
received-shows f (negsuc (suc n)) bytes rest h goes_on = absurd (omega arith)

session_loop-shows : (n : ℕ) (e : Session) → Ensures shower [] (session_loop n e) (λ _ _. Unit)
unfolding session_loop
session_loop-shows zero e = tt
session_loop-shows (suc n) e = (
  tt,
  elim [
    | true ↦ λ _. tt
    | false ↦ λ _. (
      tt,
      λ _ _. (
        (refl, refl),
        λ r h. received-shows e.sock r.size r.bytes (session_loop n e) h (session_loop-shows n e),
      ),
    )
  ],
)

pub session_process_thread-shows :
    (n : ℕ) (e : Session) → Ensures shower [] (session_process_thread n e) (λ _ _. Unit)
unfolding session_process_thread
session_process_thread-shows n e =
    Ensures-bind shower [] (session_loop n e) _ _ (λ _ (r : Option (Unit {0})). Unit)
      (session_loop-shows n e)
      λ t. elim [ none ↦ λ _. tt | some _ ↦ λ _. (tt, λ _ _. (tt, λ _ _. (tt, λ _ _. tt))) ]
