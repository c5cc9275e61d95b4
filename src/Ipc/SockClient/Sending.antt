-- ===== src/Ipc/SockClient/Sending.antt =====
-- What ipc/sock_client.c sends.
use linux_tutorial.Prelude.{
  ℕ, zero, suc, ◌+◌, ◌<◌, ◌≡◌, true, false, ◌||◌, none, some, ◌++◌, arith, length, length-append,
  get_elem?,
}
use linux_tutorial.Prelude.Int.{ℤ}
use linux_tutorial.Prelude.Text.{codes}
use linux_tutorial.Prelude.Decimal.{All-append, decimal, decimal-IsText, length-decimal-le}
use linux_tutorial.Prog.Logic.{Monitor, Ensures, Ensures_mono, Ensures-elim}
use linux_tutorial.Platform.{Call, Reply, c_string, send, is_zero, is_negative}
use linux_tutorial.Platform.Strings.{IsText, c_string-sprintf}
use linux_tutorial.Ipc.SockClient.{message, send_loop}

message-IsText : (pid count : ℕ) → IsText (message pid count)
unfolding message
message-IsText pid count = All-append _ (codes "Message from ") _ (omega arith) (
    All-append _ (decimal pid) _ (decimal-IsText pid) (
      All-append _ (codes ", count[") _ (omega arith)
        (All-append _ (decimal count) _ (decimal-IsText count) (omega arith))))

-- Every message fits the array of 1024 chars.
length-message-lt : (pid count : ℕ) → length (message pid count) < 1023
unfolding message
length-message-lt pid count = omega (
  arith,
  length-append (codes "Message from ")
      (decimal pid ++ (codes ", count[" ++ (decimal count ++ codes "]\n"))),
  length-append (decimal pid) (codes ", count[" ++ (decimal count ++ codes "]\n")),
  length-append (codes ", count[") (decimal count ++ codes "]\n"),
  length-append (decimal count) (codes "]\n"),
  length-decimal-le pid,
  length-decimal-le count,
)

-- A call of `send` passes on an array that reads as the next message; the state is the next count.
abbrev Carries : ℕ → ℕ → Call → Type 0
Carries pid s (send _ buf) =
    (c_string buf ≡ some (message pid s))
    × (get_elem? buf (suc (length (message pid s))) ≡ some none)
Carries pid s _ = Unit

abbrev sent : ℕ → (c : Call) → Reply c → ℕ
sent s (send _ _) r = s + 1
sent s _ _ = s

abbrev pub numbered : ℕ → Monitor Call Reply
numbered pid = record { State = ℕ; Allowed = Carries pid; Documented = λ _ _ _. Unit; next = sent }

-- The messages are numbered from the first count on and each array reads as its message; but each
-- `send` also gives away a char behind the text that the program never wrote. A loop whose `n` rounds
-- are used up has sent `n` messages.
pub sock_send_loop-numbered :
    (n : ℕ) (sock : ℤ) (pid count : ℕ)
    → Ensures (numbered pid) count (send_loop n sock pid count) (λ t r. r ≡ none → t ≡ count + n)
unfolding send_loop
sock_send_loop-numbered zero sock pid count = λ _. omega arith
sock_send_loop-numbered (suc n) sock pid count =
    let (buf, fits, reads, rest) =
      c_string-sprintf 1024 (message pid count) (omega (arith, length-message-lt pid count))
        (message-IsText pid count) in
    (
      tt,
      elim [
        | true ↦ λ _ used_up. cc
        | false ↦ λ _. rw fits (
          (reads, rest),
          λ size _.
              Ensures-elim (numbered pid) (is_negative size || is_zero size) _ _ _ _
                (λ _. (tt, λ _ _ used_up. cc))
                (λ _. (
                  tt,
                  λ _ _. (
                    tt,
                    λ _ _.
                        Ensures_mono (numbered pid) (count + 1) (send_loop n sock pid (count + 1)) _
                          _ (sock_send_loop-numbered n sock pid (count + 1))
                          λ t r sent_all used_up. omega (arith, sent_all used_up),
                  ),
                )),
        )
      ],
    )
