-- ===== src/Platform/Protocol.antt =====
-- The order of calls on a socket: `listen` wants a socket that was bound, `accept` one that listens,
-- and data goes out only on one that is connected.
use linux_tutorial.Prelude.{◌≡◌, if◌then◌else◌}
use linux_tutorial.Prelude.Int.{ℤ}
use linux_tutorial.Prog.Logic.{Monitor}
use linux_tutorial.Platform.{Call, Reply, bind, listen, accept, connect, send, ssl_set_fd, is_zero}

-- What the last call that succeeded made of the program's socket.
pub data Phase : Type 0 where
  unused : Phase
  bound listening connected : ℤ → Phase

abbrev pub InOrder : Phase → Call → Type 0
InOrder s (listen f _) = s ≡ bound f
InOrder s (accept f) = s ≡ listening f
InOrder s (send f _) = s ≡ connected f
InOrder s (ssl_set_fd _ f) = s ≡ connected f
InOrder s _ = Unit

abbrev pub advance : Phase → (c : Call) → Reply c → Phase
advance s (bind f _) r = if is_zero r then bound f else s
advance s (listen f _) r = if is_zero r then listening f else s
advance s (connect f _) r = if is_zero r then connected f else s
advance s _ _ = s

abbrev pub protocol : Monitor Call Reply
protocol = record { State = Phase; Allowed = InOrder; Documented = λ _ _ _. Unit; next = advance }
