-- ===== src/Libuv/Uv/Storage.antt =====
-- The storage of the handle `client`, and that it may end while the loop reads on it. The condition:
-- `uv_read_start` succeeds.
use linux_tutorial.Prelude.{◌≡◌, Bool, true, false}
use linux_tutorial.Prog.Logic.{Monitor}
use linux_tutorial.Platform.{is_zero}
use linux_tutorial.Libuv.Uv.{client, Call, Reply, tcp_init, read_start, end_of}

-- Whether the loop reads on the handle, and whether its storage has ended while it did.
pub record Handle : Type 0 where
  pub reads : Bool
  pub left_in_use : Bool

abbrev pub Starts : (c : Call) → Reply c → Type 0
Starts (read_start _) r = is_zero r ≡ true
Starts _ _ = Unit

abbrev pub stored : Handle → (c : Call) → Reply c → Handle
stored s (tcp_init client) r = record { reads = false; left_in_use = false }
stored s (read_start client) r = record s { reads = is_zero r }
stored s (end_of client) r = record s { left_in_use = s.reads }
stored s _ _ = s

abbrev pub storage : Monitor Call Reply
storage = record { State = Handle; Allowed = λ _ _. Unit; Documented = λ _. Starts; next = stored }
