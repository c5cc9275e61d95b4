-- ===== src/Platform/Mailbox.antt =====
-- A thread that prints what it takes off a message queue.
use linux_tutorial.Prelude.{ℕ, zero, suc, ◌≡◌, refl, true, false, List, [], ◌∷◌, if◌then◌else◌}
use linux_tutorial.Prelude.Int.{ℤ, pos, negsuc}
use linux_tutorial.Prog.{ret, ◌>>◌}
use linux_tutorial.Prog.Logic.{Monitor, Ensures}
use linux_tutorial.Platform.{
  Call, Reply, Buffer, filled, mq_send, mq_receive, puts, puts_text, perform, is_zero, is_negative,
  is_positive,
}

-- The array of 128 chars after a message was received.
abbrev pub cells : List ℕ → Buffer
cells message = filled 128 message

-- It takes a message when it holds none, prints the one that it holds out of the array, and sends none.
abbrev pub PrintsHeld : List (List ℕ) → Call → Type 0
PrintsHeld held (mq_send _ _) = ⊥
PrintsHeld held (mq_receive _ _) = held ≡ []
PrintsHeld held (puts_text _ buf) =
    (message : List ℕ) × (held ≡ message ∷ []) × (buf ≡ cells message)
PrintsHeld held _ = Unit

abbrev pub held_after : List (List ℕ) → (c : Call) → Reply c → List (List ℕ)
held_after held (mq_receive _ _) r = if is_positive r.size then r.bytes ∷ [] else held
held_after held (puts_text _ _) r = []
held_after held _ r = held

abbrev pub printing : Monitor Call Reply
printing = record {
  State = List (List ℕ);
  Allowed = PrintsHeld;
  Documented = λ _ _ _. Unit;
  next = held_after;
}

-- A message that came is printed once, and is not held on to.
pub received-prints :
    (mq : ℤ) (msgsize : ℕ) (size : ℤ) (bytes : List ℕ)
    → Ensures printing
        (held_after [] (mq_receive mq msgsize) (record { size = size; bytes = bytes }))
        (elim (is_negative size) [
          | true ↦ perform (puts "mq_receive error with [%d]%s\n")
          | false ↦ elim (is_zero size) [
            | true ↦ ret tt
            | false ↦ do perform (puts_text "%s" (filled 128 bytes)); perform (puts "\n")
          ]
        ])
        (λ t _. t ≡ [])
received-prints mq msgsize (pos zero) bytes = refl
received-prints mq msgsize (pos (suc n)) bytes = ((bytes, refl, refl), λ _ _. (tt, λ _ _. refl))
received-prints mq msgsize (negsuc n) bytes = (tt, λ _ _. refl)
