-- ===== src/Libuv/Uv/Buffers.antt =====
-- The buffers that the libuv programs make: how many were wished for, and how many are still held.
use linux_tutorial.Prelude.{ℕ, zero, suc, ◌-◌, ◌≡◌, ◌≢◌, Option, none, some}
use linux_tutorial.Prog.Logic.{Monitor, Ensures, Ensures-bind}
use linux_tutorial.Libuv.Uv.{
  Buf, Event, allocation, Call, Reply, Io, next_event, malloc, free, uv_run,
}

pub record Held : Type 0 where
  pub wished : ℕ
  pub live : ℕ

abbrev pub counted : Held → Option Event → Held
counted s (some (allocation _)) = record s { wished = suc s.wished }
counted s _ = s

abbrev pub next : Held → (c : Call) → Reply c → Held
next s next_event r = counted s r
next s (malloc _) p = record s { live = suc s.live }
next s (free _) r = record s { live = s.live - 1 }
next s _ _ = s

-- Memory is ample.
abbrev pub Ample : (c : Call) → Reply c → Type 0
Ample (malloc _) p = p ≢ 0
Ample _ _ = Unit

abbrev pub buffers : Monitor Call Reply
buffers = record { State = Held; Allowed = λ _ _. Unit; Documented = λ _. Ample; next = next }

-- A loop whose callbacks give back as much as they make leaves nothing, and one whose callbacks do
-- not leaves what they do.
pub uv_run-keeps :
    (callback : Event → Buf → Io Buf)
    → ((s : Held) (e : Event) (buf : Buf)
        → s.live ≡ s.wished
        → Ensures buffers (counted s (some e)) (callback e buf) (λ t _. t.live ≡ t.wished))
    → (n : ℕ) (s : Held) (buf : Buf) → s.live ≡ s.wished
    → Ensures buffers s (uv_run callback n buf) (λ t _. t.live ≡ t.wished)
unfolding uv_run
uv_run-keeps callback keeps zero s buf h = h
uv_run-keeps callback keeps (suc n) s buf h = (
  tt,
  elim [
    | none ↦ λ _. h
    | some e ↦ λ _.
        Ensures-bind buffers _ (callback e buf) _ _ _ (keeps s e buf h)
          λ t buf' kept. uv_run-keeps callback keeps n t buf' kept
  ],
)
