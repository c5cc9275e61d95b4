-- ===== src/Libuv/Uv/Stages.antt =====
-- The order of calls on the handles of the libuv programs, and an event loop that comes to its end.
-- The documents that are used: an attempt to connect ends at most once, and in the callback of a new
-- connection `uv_accept` succeeds. The conditions: `uv_tcp_init`, `uv_tcp_bind` and `uv_listen`
-- succeed. A call that fails leaves the handle at its stage.
use linux_tutorial.Prelude.{
  ℕ, suc, ◌+◌, ◌≤◌, ◌<◌, ◌≡◌, ◌≢◌, true, Option, none, some, if◌then◌else◌, arith,
}
use linux_tutorial.Prelude.{zero}
use linux_tutorial.Prog.Logic.{Monitor, Ensures, Ensures-bind}
use linux_tutorial.Platform.{is_zero}
use linux_tutorial.Libuv.Uv.{
  sock, client, Buf, Event, connected, Call, Reply, Io, tcp_init, tcp_bind, listen, tcp_connect,
  accept, read_start, close, next_event, uv_run,
}

-- What the last call or event made of a handle. `closing` is one whose closing was asked for: libuv
-- closes it when the loop runs next.
pub data Stage : Type 0 where
  raw initialised bound listening connecting open_ closing : Stage

-- The handle of `main`, that of the last call of `on_connection`, and how many events came.
pub record Loop : Type 0 where
  pub stage : Stage
  pub peer : Stage
  pub events : ℕ

abbrev pub Allowed : Loop → Call → Type 0
Allowed s (tcp_bind sock) = s.stage ≡ initialised
Allowed s (listen sock _) = s.stage ≡ bound
Allowed s (tcp_connect sock) = s.stage ≡ initialised
Allowed s (accept sock client) = (s.stage ≡ listening) × (s.peer ≡ initialised)
Allowed s (read_start sock) = s.stage ≡ open_
Allowed s (read_start client) = s.peer ≡ open_
Allowed s (close sock) = (s.stage ≢ raw) × (s.stage ≢ closing)
Allowed s _ = Unit

-- The event that the loop hands over; none comes from number `m` on.
abbrev pub Delivers : Loop → Option Event → Type 0
Delivers s (some (connected _)) = s.stage ≡ connecting
Delivers s _ = Unit

abbrev pub Documented : ℕ → Loop → (c : Call) → Reply c → Type 0
Documented m s next_event r = Delivers s r × (m ≤ s.events → r ≡ none)
Documented m s (tcp_init _) r = is_zero r ≡ true
Documented m s (tcp_bind _) r = is_zero r ≡ true
Documented m s (listen _ _) r = is_zero r ≡ true
Documented m s (accept _ _) r = is_zero r ≡ true
Documented m s _ _ = Unit

abbrev pub staged : Stage → Option Event → Stage
staged s (some (connected status)) = if is_zero status then open_ else initialised
staged s _ = s

abbrev pub next : Loop → (c : Call) → Reply c → Loop
next s (tcp_init sock) r = if is_zero r then record s { stage = initialised } else s
next s (tcp_init client) r = if is_zero r then record s { peer = initialised } else s
next s (tcp_bind _) r = if is_zero r then record s { stage = bound } else s
next s (listen _ _) r = if is_zero r then record s { stage = listening } else s
next s (tcp_connect _) r = if is_zero r then record s { stage = connecting } else s
next s (accept _ _) r = if is_zero r then record s { peer = open_ } else s
next s (close _) r = record s { stage = closing }
next s next_event r = record s { stage = staged s.stage r; events = suc s.events }
next s _ _ = s

abbrev pub loop : ℕ → Monitor Call Reply
loop m = record { State = Loop; Allowed = Allowed; Documented = Documented m; next = next }

-- Before `main`.
abbrev pub nothing : Loop
nothing = record { stage = raw; peer = raw; events = 0 }

-- A loop whose callbacks keep an invariant ends with it, when the events do.
pub uv_run-ends :
    (m : ℕ) (callback : Event → Buf → Io Buf) (Inv : Stage → Type 0)
    → ((s : Loop) (e : Event) (buf : Buf)
        → Inv s.stage
        → Delivers s (some e)
        → Ensures
            (loop m)
            (next s next_event (some e))
            (callback e buf)
            (λ t _. Inv t.stage × (t.events ≡ suc s.events)))
    → (n : ℕ) (s : Loop) (buf : Buf) → m < s.events + n
    → 0 < n
    → Inv s.stage
    → Ensures (loop m) s (uv_run callback n buf) (λ t r. Inv t.stage × (r ≢ none))
unfolding uv_run
uv_run-ends m callback Inv keeps zero s buf h some_left inv = absurd (omega arith)
uv_run-ends m callback Inv keeps (suc zero) s buf h some_left inv = (
  tt,
  elim [ none ↦ λ _. (inv, λ x. cc) | some e ↦ λ d. absurd (ground (arith, d.1 (omega arith))) ],
)
uv_run-ends m callback Inv keeps (suc (suc n)) s buf h some_left inv = (
  tt,
  elim [
    | none ↦ λ _. (inv, λ x. cc)
    | some e ↦ λ d.
        Ensures-bind (loop m) _ (callback e buf) _ _ _ (keeps s e buf inv d.0) λ t buf' kept.
          uv_run-ends m callback Inv keeps (suc n) t buf' (omega (arith, kept.1)) (omega arith)
            kept.0
  ],
)
