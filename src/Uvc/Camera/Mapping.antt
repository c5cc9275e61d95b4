-- ===== src/Uvc/Camera/Mapping.antt =====
-- What `camera_init` maps and allocates, `camera_finish` unmaps and frees.
use mathlib.Core.Path.{fun_ext}
use mathlib.Core.List.{append_assoc, append-nil}
use linux_tutorial.Prelude.{
  ℕ, zero, suc, ◌+◌, Option, none, some, List, [], ◌∷◌, ◌++◌, ◌≡◌, refl, sym, ap, ◌∙◌, arith,
  get_elem?, length, length-append, ltb, if◌then◌else◌,
}
use linux_tutorial.Prelude.Int.{ℤ}
use linux_tutorial.Prog.Logic.{Ensures, Ensures-bind, Ensures_mono}
use linux_tutorial.Uvc.Blocks.{
  updated, update, Extends, Extends-free, update-update, update-none, block_there,
}
use linux_tutorial.Uvc.Calls.{reqbufs, querybuf}
use linux_tutorial.Uvc.Holdings.{Held, holdings}
use linux_tutorial.Uvc.Camera.{
  Buffer, Camera, must, map_buffers, request_buffers, unmap_buffers, camera_finish, camera_init,
  set_format,
}
use linux_tutorial.Uvc.Camera.Requests.{Unless, on-Unless, must-same, set_format-same}

abbrev starts : List Buffer → List ℕ
starts [] = []
starts (b ∷ bs) = b.start ∷ starts bs

abbrev lengths : List Buffer → List ℕ
lengths [] = []
lengths (b ∷ bs) = b.length ∷ lengths bs

-- `c'` is `c` and the mappings of the buffers.
abbrev Mapped : (ℕ → Option ℕ) → (ℕ → Option ℕ) → List Buffer → Type 0
Mapped c c' bs = Extends (λ _. Unit {0}) c c' (starts bs) (lengths bs)

map_buffers-Mapped :
    (k i : ℕ) (fd : ℤ) (buf_max : ℕ) (buffers : List Buffer) (s : Held)
    → s.descriptor ≡ some fd
    → Ensures holdings s (map_buffers k i fd buf_max buffers) (
        Unless (λ t m.
          (bs : List Buffer) × (m.1 ≡ buffers ++ bs)
          × (length bs ≡ k)
          × Mapped s.maps t.maps bs
          × (t ≡ record s { maps = t.maps })))
unfolding map_buffers
map_buffers-Mapped zero i fd buf_max buffers s h = λ m e.
    let same : (buf_max, buffers) ≡ m = cc in
    rw (sym same) ([], sym (append-nil buffers), refl, refl, refl)
map_buffers-Mapped (suc k) i fd buf_max buffers s h =
    on-Unless s (must fd (querybuf i) (0, 0) "VIDIOC_QUERYBUF") _ (λ t _. t ≡ s) _
      (must-same fd (querybuf i) (0, 0) "VIDIOC_QUERYBUF" s h)
      λ t buf same. rw same (
        tt,
        elim [
          | none ↦ λ _. (tt, λ _ _ m e. cc)
          | some p ↦ λ new.
              let b : Buffer = record { start = p; length = buf.0 } in
              Ensures_mono holdings (record s { maps = update s.maps p (some buf.0) })
                (map_buffers k (i + 1) fd (if ltb buf_max buf.0 then buf.0 else buf_max)
                  (buffers ++ (b ∷ [])))
                _ _
                (map_buffers-Mapped k (i + 1) fd _ (buffers ++ (b ∷ []))
                  (record s { maps = update s.maps p (some buf.0) }) h)
                λ u r f m e.
                  let (bs, joined, count, mapped, rest) = f m e in
                  (
                    b ∷ bs,
                    joined ∙ append_assoc buffers (b ∷ []) bs,
                    ap suc count,
                    (new, tt, mapped),
                    rest,
                  )
        ],
      )

get_elem?-append_right :
    (pre bs : List Buffer) (b : Buffer) (i : ℕ)
    → length pre ≡ i
    → get_elem? (pre ++ (b ∷ bs)) i ≡ some b
get_elem?-append_right [] bs b i e = ap (get_elem? (b ∷ bs)) (sym e)
get_elem?-append_right (x ∷ pre) bs b zero e = absurd (omega (arith, e))
get_elem?-append_right (x ∷ pre) bs b (suc i) e =
    get_elem?-append_right pre bs b i (omega (arith, e))

unmap_buffers_lem :
    (k i : ℕ) (pre bs : List Buffer) (c : ℕ → Option ℕ) (s : Held)
    → length pre ≡ i
    → length bs ≡ k
    → Mapped c s.maps bs
    → Ensures holdings s (unmap_buffers k i (pre ++ bs)) (λ t _. t ≡ record s { maps = c })
unfolding unmap_buffers
unmap_buffers_lem zero i pre [] c s hp hb same = ap (λ f. record s { maps = f }) same
unmap_buffers_lem zero i pre (b ∷ bs) c s hp hb h = absurd (omega (arith, hb))
unmap_buffers_lem (suc k) i pre [] c s hp hb h = absurd (omega (arith, hb))
unmap_buffers_lem (suc k) i pre (b ∷ bs) c s hp hb (new, _, more) =
    rw (get_elem?-append_right pre bs b i hp) (
      block_there (λ _. Unit {0}) c s.maps b.start (starts bs) b.length (lengths bs) more,
      λ _ _. rw (sym (append_assoc pre (b ∷ []) bs)) (
          unmap_buffers_lem k (i + 1) (pre ++ (b ∷ [])) bs c
            (record s { maps = update s.maps b.start none })
            (omega (arith, length-append pre (b ∷ []), hp)) (omega (arith, hb))
            (rw (sym (update-update c b.start (some b.length) none ∙ update-none c b.start new)) (
              Extends-free (λ _. Unit {0}) (update c b.start (some b.length)) s.maps (starts bs)
                (lengths bs) b.start b.length more (ground arith)))),
    )

-- A camera that `camera_init` has set up where `s` was held, with `t` held now.
abbrev pub IsHeld : Held → Held → Camera → Type 0
IsHeld s t c =
    (length c.buffers ≡ c.buffer_count)
    × Mapped s.maps t.maps c.buffers
    × (s.blocks c.buffers_at ≡ none)
    × (update s.blocks c.buffers_at (some tt) c.head.start ≡ none)
    × (t ≡ record s {
      blocks = update (update s.blocks c.buffers_at (some tt)) c.head.start (some tt);
      maps = t.maps;
    })

request_buffers-IsHeld :
    (camera : Camera) (s : Held)
    → s.descriptor ≡ some camera.fd
    → Ensures holdings s
        (request_buffers camera)
        (Unless (λ t c. IsHeld s t c × (c.fd ≡ camera.fd)))
unfolding request_buffers
request_buffers-IsHeld camera s h =
    on-Unless s (must camera.fd (reqbufs 4) 4 "VIDIOC_REQBUFS") _ (λ t _. t ≡ s) _
      (must-same camera.fd (reqbufs 4) 4 "VIDIOC_REQBUFS" s h)
      λ t count same. rw same (
        tt,
        λ at (new, _).
            on-Unless (record s { blocks = update s.blocks at (some tt) })
              (map_buffers count 0 camera.fd 0 []) _
              (λ u m.
                (bs : List Buffer) × (m.1 ≡ bs)
                × (length bs ≡ count)
                × Mapped s.maps u.maps bs
                × (u ≡ record s { blocks = update s.blocks at (some tt); maps = u.maps }))
              _
              (map_buffers-Mapped count 0 camera.fd 0 []
                (record s { blocks = update s.blocks at (some tt) }) h)
              λ u m (bs, found, counted, mapped, rest). (
                tt,
                λ start (fresh, _) c e.
                    let same_camera : record camera {
                      buffer_count = count;
                      buffers_at = at;
                      buffers = m.1;
                      head = record { start = start; length = camera.head.length };
                    }
                        ≡ c =
                      cc in
                    rw (sym same_camera, found)
                      (
                        (
                          counted,
                          mapped,
                          new,
                          ap (λ (v : Held). v.blocks start) (sym rest) ∙ fresh,
                          ap (λ (v : Held). record v { blocks = update v.blocks start (some tt) })
                              rest,
                        ),
                        refl,
                      ),
              ),
      )

both_freed :
    (b : ℕ → Option (Unit {0})) (p q : ℕ)
    → b p ≡ none
    → update b p (some tt) q ≡ none
    → update (update (update (update b p (some tt)) q (some tt)) p none) q none ≡ b
both_freed b p q new fresh = fun_ext λ x. ground (arith, new, fresh)

-- `camera_finish` lets go of all that `camera_init` took.
pub camera_finish-releases :
    (s t : Held) (c : Camera)
    → IsHeld s t c
    → Ensures holdings t (camera_finish c) (λ u d. (u ≡ s) × (d.fd ≡ c.fd))
unfolding camera_finish
camera_finish-releases s t c (count, mapped, new, fresh, rest) =
    Ensures-bind holdings t (unmap_buffers c.buffer_count 0 c.buffers) _
      (λ u _. u ≡ record t { maps = s.maps }) _
      (unmap_buffers_lem c.buffer_count 0 [] c.buffers s.maps t refl count mapped)
      λ u _ same.
        rw (same, rest)
          (
            ground (arith, fresh),
            λ _ _. (
              ground (arith, fresh),
              λ _ _. (
                ap (λ f. record s { blocks = f })
                    (both_freed s.blocks c.buffers_at c.head.start new fresh),
                refl,
              ),
            ),
          )

-- `camera_init` takes the descriptor's buffers, and remembers all of them.
pub camera_init-IsHeld :
    (camera : Camera) (s : Held)
    → s.descriptor ≡ some camera.fd
    → Ensures holdings s (camera_init camera) (Unless (λ t c. IsHeld s t c × (c.fd ≡ camera.fd)))
unfolding camera_init
camera_init-IsHeld camera s h =
    on-Unless s (set_format camera) _ (λ t _. t ≡ s) _ (set_format-same camera s h)
      λ t _ same. rw same (request_buffers-IsHeld camera s h)

-- The block of the copy is held then.
pub copy-held : (s t : Held) (c : Camera) → IsHeld s t c → t.blocks c.head.start ≡ some tt
copy-held s t c held =
    ap (λ (v : Held). v.blocks c.head.start) held.4
    ∙ updated (update s.blocks c.buffers_at (some tt)) c.head.start (some tt)
