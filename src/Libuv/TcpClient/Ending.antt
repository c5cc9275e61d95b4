-- ===== src/Libuv/TcpClient/Ending.antt =====
-- The run of libuv/tcp_client.c.
use linux_tutorial.Prelude.{
  inl, inr, Bool-cases, ℕ, suc, ◌<◌, ◌≡◌, ◌≢◌, refl, ap, none, some, arith,
}
use linux_tutorial.Prelude.Int.{ℤ, pos}
use linux_tutorial.Prog.Logic.{Ensures, Ensures-bind, Ensures-elim}
use linux_tutorial.Platform.{is_zero, is_negative, eq_ℤ}
use linux_tutorial.Libuv.Uv.{
  Buf, Event, connected, connection, allocation, read, next_event, eof, uv_run, no_buf, sock,
  tcp_connect,
}
use linux_tutorial.Libuv.Uv.Stages.{
  Stage, raw, initialised, connecting, closing, Loop, loop, next, nothing, Delivers, uv_run-ends,
}
use linux_tutorial.Libuv.Uv.Buffers.{Held, buffers, counted, uv_run-keeps}
use linux_tutorial.Libuv.TcpClient.{on_allocation, on_read, on_connect, callback, main}

-- The handle is initialised, and its closing not asked for.
abbrev IsOpen : Stage → Type 0
IsOpen s = (s ≢ raw) × (s ≢ closing)

on_read-keeps :
    (m : ℕ) (s : Loop) (nread : ℤ) (buf : Buf)
    → Ensures (loop m) s (on_read nread buf) (λ t _. t ≡ s)
unfolding on_read
on_read-keeps m s nread buf =
    Ensures-bind (loop m) s _ _ (λ t _. t ≡ s) _
      (Ensures-elim (loop m) (is_negative nread) _ _ _ _
        (λ _.
          Ensures-elim (loop m) (eq_ℤ eof nread) _ _ _ _ (λ _. (tt, λ _ _. refl))
            (λ _. (tt, λ _ _. refl)))
        (λ _. refl))
      λ t _ same. (tt, λ _ _. same)

on_connect-keeps :
    (m : ℕ) (s : Loop) (status : ℤ)
    → s.stage ≡ connecting
    → Ensures
        (loop m)
        (next s next_event (some (connected status)))
        (on_connect status)
        (λ t _. IsOpen t.stage × (t.events ≡ suc s.events))
unfolding on_connect
on_connect-keeps m s status h =
    Ensures-elim (loop m) (is_zero status) _ _ _ _
      (λ ok. rw ok (tt, λ _ _. (refl, λ _ _. (((λ x. cc), (λ x. cc)), refl))))
      (λ failed. rw failed (tt, λ _ _. (((λ x. cc), (λ x. cc)), refl)))

callback-keeps :
    (m : ℕ) (s : Loop) (e : Event) (buf : Buf)
    → IsOpen s.stage
    → Delivers s (some e)
    → Ensures
        (loop m)
        (next s next_event (some e))
        (callback e buf)
        (λ t _. IsOpen t.stage × (t.events ≡ suc s.events))
unfolding callback on_allocation
callback-keeps m s (connected status) buf h d =
    Ensures-bind (loop m) _ (on_connect status) _ _ _ (on_connect-keeps m s status d)
      λ t _ kept. kept
callback-keeps m s (connection status) buf h d = (h, refl)
callback-keeps m s (allocation size) buf h d = (tt, λ _ _. (h, refl))
callback-keeps m s (read nread) buf h d =
    Ensures-bind (loop m) _ (on_read nread buf) _ _ _ (on_read-keeps m _ nread buf)
      λ t _ same. rw same (h, refl)

asked_IsOpen :
    (r : ℤ) → IsOpen (next (record nothing { stage = initialised }) (tcp_connect sock) r).stage
asked_IsOpen r = elim (Bool-cases (is_zero r)) [
  | inl y ↦ rw y ((λ x. cc), (λ x. cc))
  | inr n ↦ rw n ((λ x. cc), (λ x. cc))
]

-- If `uv_tcp_init` succeeds and the loop has no event from number `m` on, `m + 1` rounds are enough:
-- whatever else fails, `main` returns 0 and has asked for the closing of its handle, once (libuv has
-- still to close it); it connects an initialised handle, and reads only on one whose connection has
-- succeeded.
pub uv_client_main_total :
    (n m : ℕ)
    → m < n
    → Ensures (loop m) nothing (main n) (λ t r. (t.stage ≡ closing) × (r ≡ some (pos 0)))
unfolding main
uv_client_main_total n m h = (
  tt,
  λ _ _. (
    tt,
    λ r0 ready. rw ready (
      tt,
      λ _ _. (
        refl,
        λ asked _.
            Ensures-bind (loop m) _ (uv_run callback n no_buf) _
              (λ t r. IsOpen t.stage × (r ≢ none)) _
              (uv_run-ends m callback IsOpen (callback-keeps m) n _ no_buf (omega arith)
                (omega arith) (asked_IsOpen asked))
              λ t. elim [
                | none ↦ λ g. absurd (g.1 refl)
                | some _ ↦ λ g. (tt, λ _ _. (g.0, λ _ _. (tt, λ _ _. (refl, refl))))
              ],
      ),
    ),
  ),
)

on_read-holds :
    (s : Held) (nread : ℤ) (buf : Buf) → Ensures buffers s (on_read nread buf) (λ t _. t ≡ s)
unfolding on_read
on_read-holds s nread buf =
    Ensures-bind buffers s _ _ (λ t _. t ≡ s) _
      (Ensures-elim buffers (is_negative nread) _ _ _ _
        (λ _.
          Ensures-elim buffers (eq_ℤ eof nread) _ _ _ _ (λ _. (tt, λ _ _. refl))
            (λ _. (tt, λ _ _. refl)))
        (λ _. refl))
      λ t _ same. (tt, λ _ _. same)

callback-holds :
    (s : Held) (e : Event) (buf : Buf)
    → s.live ≡ s.wished
    → Ensures buffers (counted s (some e)) (callback e buf) (λ t _. t.live ≡ t.wished)
unfolding callback on_connect on_allocation
callback-holds s (connected status) buf h =
    Ensures-bind buffers s _ _ (λ t _. t.live ≡ t.wished) _
      (Ensures-elim buffers (is_zero status) _ _ _ _ (λ _. (tt, λ _ _. (tt, λ _ _. h)))
        (λ _. (tt, λ _ _. h)))
      λ t _ kept. kept
callback-holds s (connection status) buf h = h
callback-holds s (allocation size) buf h = (tt, λ _ _. ap suc h)
callback-holds s (read nread) buf h =
    Ensures-bind buffers s (on_read nread buf) _ _ _ (on_read-holds s nread buf)
      λ t _ same. rw same h

-- No buffer is given back: however long the client runs, it holds one for each that the loop has
-- wished for.
pub uv_client_main-leaks :
    (n : ℕ) → Ensures buffers (record { wished = 0; live = 0 }) (main n) (λ t _. t.live ≡ t.wished)
unfolding main
uv_client_main-leaks n = (
  tt,
  λ _ _. (
    tt,
    λ _ _. (
      tt,
      λ _ _. (
        tt,
        λ _ _.
            Ensures-bind buffers _ (uv_run callback n no_buf) _ (λ t _. t.live ≡ t.wished) _
              (uv_run-keeps callback callback-holds n _ no_buf refl)
              λ t. elim [ none ↦ λ g. g | some _ ↦ λ g. (tt, λ _ _. (tt, λ _ _. (tt, λ _ _. g))) ],
      ),
    ),
  ),
)
