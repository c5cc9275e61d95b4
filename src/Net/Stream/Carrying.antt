-- ===== src/Net/Stream/Carrying.antt =====
-- What the session of net/tcp_server.c prints is what the client of net/tcp_client.c has sent.
use linux_tutorial.Prelude.{
  ℕ, ◌≤◌, ◌≡◌, refl, sym, ap, ◌∙◌, Bool-cases, inl, inr, some, List, [], ◌∷◌, ◌++◌, map, length,
  take, drop, arith,
}
use mathlib.Core.List.{append-nil, append_assoc, map-append}
use linux_tutorial.Prelude.Int.{ℤ, pos_part}
use linux_tutorial.Prog.Logic.{Ensures}
use linux_tutorial.Platform.{
  Call, Reply, Buffer, Session, filled, send, recv, printf_text, is_positive,
}
use linux_tutorial.Net.TcpClient.{greeting, send_loop}
use linux_tutorial.Net.TcpServer.{buffer_size, session_process_thread}
use linux_tutorial.Net.Stream.Talking.{
  Greets, greeter, ShowsHeld, MinusOne, shower, send_loop-greets, session_process_thread-shows,
}
use linux_tutorial.Net.Stream.{
  Stream, Ends, Grants, after, held_after, Reach, here, client_calls, session_calls,
}

-- The client's greetings, of which each may have been cut short.
pub data Greetings : Buffer → Type 0 where
  none_yet : Greetings []
  another :
      {bytes : Buffer} (k : ℕ)
      → Greetings bytes
      → k ≤ length (map some greeting)
      → Greetings (bytes ++ take k (map some greeting))

-- Chunks one after the other.
abbrev pub joined : List (List ℕ) → Buffer
joined [] = []
joined (bytes ∷ rest) = map some bytes ++ joined rest

joined-append : (xs ys : List (List ℕ)) → joined (xs ++ ys) ≡ joined xs ++ joined ys
joined-append [] ys = refl
joined-append (x ∷ xs) ys =
    ap (λ w. map some x ++ w) (joined-append xs ys)
    ∙ sym (append_assoc (map some x) (joined xs) (joined ys))

-- Each line prints a chunk, and the chunks with what is held are what was received.
abbrev pub Shown : List Buffer → Buffer → List (List ℕ) → Type 0
Shown lines received held =
    (chunks : List (List ℕ)) × (lines ≡ map (filled buffer_size) chunks)
    × (received ≡ joined (chunks ++ held))

abbrev Account : Stream → Ends → Type 0
Account s e =
    Ensures greeter tt e.client (λ _ _. Unit)
    × Ensures shower e.held e.session (λ _ _. Unit)
    × Greetings s.sent
    × (s.sent ≡ s.received ++ s.waiting)
    × Shown s.lines s.received e.held

sent_fits :
    {buf : Buffer} {k : ℕ}
    → buf ≡ map some greeting
    → k ≤ length buf
    → k ≤ length (map some greeting)
sent_fits e h = omega (arith, h, ap length e)

client-Greetings :
    (s : Stream) (c : Call) (r : Reply c)
    → Greets c
    → Grants s c r
    → Greetings s.sent
    → s.sent ≡ s.received ++ s.waiting
    → Greetings (after s c r).sent
      × ((after s c r).sent ≡ (after s c r).received ++ (after s c r).waiting)
      × ((after s c r).received ≡ s.received)
      × ((after s c r).lines ≡ s.lines)
client-Greetings s (send f buf) r h g greetings o = rw h (
  another (pos_part r) greetings (sent_fits h g),
  ap (λ w. w ++ take (pos_part r) (map some greeting)) o
      ∙ append_assoc s.received s.waiting (take (pos_part r) (map some greeting)),
  refl,
  refl,
)
client-Greetings s (recv f n) r h g greetings o = absurd h
client-Greetings s (printf_text l t buf) r h g greetings o = absurd h
client-Greetings s _ r h g greetings o = (greetings, o, refl, refl)

received_more :
    {received : Buffer} (chunks : List (List ℕ)) (bytes : List ℕ)
    → received ≡ joined (chunks ++ [])
    → received ++ map some bytes ≡ joined (chunks ++ (bytes ∷ []))
received_more chunks bytes came =
    ap (λ w. w ++ map some bytes) (came ∙ ap joined (append-nil chunks))
    ∙ ap (λ w. joined chunks ++ w) (sym (append-nil (map some bytes)))
    ∙ sym (joined-append chunks (bytes ∷ []))

session-Shown :
    (s : Stream) (held : List (List ℕ)) (c : Call) (r : Reply c)
    → ShowsHeld held c
    → Grants s c r
    → s.sent ≡ s.received ++ s.waiting
    → Shown s.lines s.received held
    → ((after s c r).sent ≡ (after s c r).received ++ (after s c r).waiting)
      × ((after s c r).sent ≡ s.sent)
      × Shown (after s c r).lines (after s c r).received (held_after held c r)
session-Shown s held (send f buf) r h g o shown = absurd h
session-Shown s held (recv f n) r h g o (chunks, printed, came) =
    elim (Bool-cases (is_positive r.size)) [
      | inl y ↦
          let (_, _, oldest) = g.1 y in
          rw y (
            o
                ∙ ap (λ w. s.received ++ w) oldest
                ∙ sym
                    (append_assoc s.received (map some r.bytes) (drop (pos_part r.size) s.waiting)),
            refl,
            (
              chunks,
              printed,
              received_more chunks r.bytes (came ∙ ap (λ x. joined (chunks ++ x)) h.0),
            ),
          )
      | inr n ↦ rw n (o, refl, (chunks, printed, came))
    ]
session-Shown s held (printf_text l t buf) r (bytes, e, e') g o (chunks, printed, came) = (
  o,
  refl,
  (
    chunks ++ (bytes ∷ []),
    rw e' (
        ap (λ w. w ++ (filled buffer_size bytes ∷ [])) printed
        ∙ sym (map-append (filled buffer_size) chunks (bytes ∷ []))),
    came ∙ ap (λ x. joined (chunks ++ x)) e ∙ ap joined (sym (append-nil (chunks ++ (bytes ∷ [])))),
  ),
)
session-Shown s held _ r h g o shown = (o, refl, shown)

Grants-MinusOne : (s : Stream) (c : Call) (r : Reply c) → Grants s c r → MinusOne c r
Grants-MinusOne s (recv f n) r g = g.0
Grants-MinusOne s _ r g = tt

Reach-Account :
    {s : Stream} {e : Ends} {s' : Stream} {e' : Ends}
    → Account s e
    → Reach s e s' e'
    → Account s' e'
Reach-Account h here = h
Reach-Account h (client_calls {s'} c k r session held g reached) =
    let (greets, shows, greetings, o, shown) = Reach-Account h reached in
    let (greetings', o', came_same, lines_same) = client-Greetings s' c r greets.0 g greetings o in
    (greets.1 r tt, shows, greetings', o', rw (came_same, lines_same) shown)
Reach-Account h (session_calls {s'} c k r client held g reached) =
    let (greets, shows, greetings, o, shown) = Reach-Account h reached in
    let (o', sent_same, shown') = session-Shown s' held c r shows.0 g o shown in
    (greets, shows.1 r (Grants-MinusOne s' c r g), rw sent_same greetings, o', shown')

abbrev pub silent : Stream
silent = record { waiting = []; sent = []; received = []; lines = [] }

-- The client has connected, and the thread of its session starts.
abbrev pub connected : ℕ → ℕ → ℤ → Session → Ends
connected n m sock e = record {
  client = send_loop n sock;
  session = session_process_thread m e;
  held = [];
}

-- However the calls of the two follow each other, wherever the connection cuts what is sent, and
-- whichever calls fail: the client sends greetings, each of which may be cut short, and they come
-- to the session in order; the lines that the session prints show, chunk by chunk, what it has
-- received, but for a chunk that it still holds, and none twice.
pub session_process_thread-Shown :
    (n m : ℕ) (sock : ℤ) (e : Session) {s : Stream} {ends : Ends}
    → Reach silent (connected n m sock e) s ends
    → Greetings s.sent × (s.sent ≡ s.received ++ s.waiting) × Shown s.lines s.received ends.held
session_process_thread-Shown n m sock e reached =
    let (_, _, greetings, o, shown) =
      Reach-Account
        (
          send_loop-greets n sock,
          session_process_thread-shows m e,
          none_yet,
          refl,
          ([], refl, refl),
        )
        reached in
    (greetings, o, shown)
