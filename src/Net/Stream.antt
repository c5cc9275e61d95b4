-- ===== src/Net/Stream.antt =====
-- net/tcp_client.c and net/tcp_server.c at once: the sending loop of the client and the thread of its
-- session over the connection between them.
pub mod Carrying
pub mod Talking
use linux_tutorial.Prelude.{
  ℕ, ◌≤◌, ◌≡◌, true, Option, some, List, ◌∷◌, [], ◌++◌, map, length, take, drop, if◌then◌else◌,
}
use linux_tutorial.Prelude.Int.{ℤ, pos, negsuc, pos_part, neg_part}
use linux_tutorial.Prog.{call}
use linux_tutorial.Platform.{Call, Reply, Io, Buffer, send, recv, printf_text, is_positive}

-- The bytes on their way, those that were sent and those that were received, and the lines that the
-- session printed out of its buffer.
pub record Stream : Type 0 where
  pub waiting : Buffer
  pub sent : Buffer
  pub received : Buffer
  pub lines : List Buffer

-- `send` takes as many bytes as it says, which may be fewer than it was given. `recv` gives no more
-- than it was asked for, of the oldest bytes that wait, or -1.
abbrev pub Grants : Stream → (c : Call) → Reply c → Type 0
Grants s (send _ buf) r = pos_part r ≤ length buf
Grants s (recv _ n) r =
    (neg_part r.size ≤ 1)
    × (is_positive r.size ≡ true
        → (pos_part r.size ≤ n)
          × (length r.bytes ≡ pos_part r.size)
          × (s.waiting ≡ map some r.bytes ++ drop (pos_part r.size) s.waiting))
Grants s _ r = Unit

abbrev pub after : Stream → (c : Call) → Reply c → Stream
after s (send _ buf) r = record s {
  waiting = s.waiting ++ take (pos_part r) buf;
  sent = s.sent ++ take (pos_part r) buf;
}
after s (recv _ _) r =
    if is_positive r.size
    then record s {
      waiting = drop (pos_part r.size) s.waiting;
      received = s.received ++ map some r.bytes;
    }
    else s
after s (printf_text _ _ buf) r = record s { lines = s.lines ++ (buf ∷ []) }
after s _ r = s

-- Where the two loops are. For the account, what the session has received and not printed yet.
pub record Ends : Type 0 where
  pub client : Io (Option (Unit {0}))
  pub session : Io (Option (Unit {0}))
  pub held : List (List ℕ)

abbrev pub held_after : List (List ℕ) → (c : Call) → Reply c → List (List ℕ)
held_after held (recv _ _) r = if is_positive r.size then r.bytes ∷ [] else held
held_after held (printf_text _ _ _) r = []
held_after held _ r = held

-- The client and the session make their calls in any order.
pub data Reach (s : Stream) (e : Ends) : Stream → Ends → Type 0 where
  here : Reach s e s e
  client_calls :
      {s' : Stream} (c : Call) (k : Reply c → Io (Option (Unit {0}))) (r : Reply c)
      (session : Io (Option (Unit {0}))) (held : List (List ℕ))
      → Grants s' c r
      → Reach s e s' (record { client = call c k; session = session; held = held })
      → Reach s e (after s' c r) (record { client = k r; session = session; held = held })
  session_calls :
      {s' : Stream} (c : Call) (k : Reply c → Io (Option (Unit {0}))) (r : Reply c)
      (client : Io (Option (Unit {0}))) (held : List (List ℕ))
      → Grants s' c r
      → Reach s e s' (record { client = client; session = call c k; held = held })
      → Reach s e
          (after s' c r)
          (record { client = client; session = k r; held = held_after held c r })
