-- ===== src/Uvc/Camera/Readying.antt =====
-- The buffers of the camera of uvc/main.c after `camera_init` has mapped them.
use linux_tutorial.Prelude.{
  ℕ, zero, suc, ◌+◌, true, false, none, some, List, [], ◌∷◌, ◌++◌, ◌≡◌, inl, inr, refl, sym, arith,
  length-append, ltb, if◌then◌else◌, ◌==◌, ℕ_discrete,
}
use linux_tutorial.Prelude.Int.{ℤ}
use linux_tutorial.Prog.Logic.{Ensures, Ensures-bind, Ensures_mono}
use linux_tutorial.Uvc.Calls.{reqbufs, querybuf}
use linux_tutorial.Uvc.Camera.{Buffer, Camera, must, map_buffers, request_buffers}
use linux_tutorial.Uvc.Camera.Regions.{Regions, regions}
use linux_tutorial.Uvc.Camera.Bounds.{
  MustTold, must-Told, get_elem?-append, get_elem?_last, fits-cons, IsMapped, IsReady,
}

IsMapped-extend :
    (s : Regions) (i buf_max len p : ℕ) (buffers : List Buffer)
    → IsMapped s i buf_max buffers
    → IsMapped
        (record s { lengths = λ j. if j == i then len else s.lengths j; maps = (p, len) ∷ s.maps })
        (i + 1)
        (if ltb buf_max len then len else buf_max)
        (buffers ++ (record { start = p; length = len } ∷ []))
IsMapped-extend s i buf_max len p buffers h = (
  omega (arith, length-append buffers (record { start = p; length = len } ∷ []), h.0),
  λ j below. elim (ℕ_discrete j i) [
    | yes e ↦
        let same : (j == i) ≡ true = ground (arith, e) in
        (
          record { start = p; length = len },
          rw (e, sym h.0) (get_elem?_last buffers (record { start = p; length = len })),
          ground (arith, same),
          ground (arith, same),
        )
    | no ne ↦
        let other : (j == i) ≡ false = ground (arith, ne) in
        let (b, found, mapped, short) = h.1 j (omega arith) in
        (
          b,
          get_elem?-append buffers _ j b found,
          fits-cons b.start _ (s.lengths j) (p, len) s.maps (ground (arith, other)) mapped,
          ground (arith, other, short),
        )
  ],
)

-- The loop of `camera_init` maps each of the driver's buffers, or the program ends.
map_buffers-IsMapped :
    (k i : ℕ) (fd : ℤ) (buf_max : ℕ) (buffers : List Buffer) (s : Regions)
    → IsMapped s i buf_max buffers
    → Ensures regions s (map_buffers k i fd buf_max buffers) (λ t r.
      (m : ℕ × List Buffer) → r ≡ some m → IsMapped t (i + k) m.0 m.1 × (t.count ≡ s.count))
unfolding map_buffers
map_buffers-IsMapped zero i fd buf_max buffers s h = λ m e.
    let same : (buf_max, buffers) ≡ m = cc in
    let no_more : i + 0 ≡ i = omega arith in rw (sym same, no_more) (h, refl)
map_buffers-IsMapped (suc k) i fd buf_max buffers s h =
    Ensures-bind regions s (must fd (querybuf i) (0, 0) "VIDIOC_QUERYBUF") _
      (MustTold s (querybuf i)) _ (must-Told fd (querybuf i) (0, 0) "VIDIOC_QUERYBUF" s)
      λ t r. elim [
        | inl ended ↦ rw ended λ m e. cc
        | inr told ↦
            rw (told.3, told.1)
              (
                tt,
                elim [
                  | none ↦ λ _. (tt, λ _ _ m e. cc)
                  | some p ↦ λ _.
                      Ensures_mono regions _ (map_buffers k (i + 1) fd _ _) _ _
                        (map_buffers-IsMapped k (i + 1) fd _ _ _
                          (IsMapped-extend s i buf_max told.0.0 p buffers h))
                        λ t r g m e.
                          let more : i + suc k ≡ i + 1 + k = omega arith in rw more (g m e)
                ],
              )
      ]

-- With memory for it, `camera_init` leaves a camera that is ready, or ends the program.
pub request_buffers-IsReady :
    (camera : Camera) (s : Regions)
    → Ensures regions s (request_buffers camera) (λ t r. (c : Camera) → r ≡ some c → IsReady t c)
unfolding request_buffers
request_buffers-IsReady camera s =
    Ensures-bind regions s (must camera.fd (reqbufs 4) 4 "VIDIOC_REQBUFS") _
      (MustTold s (reqbufs 4)) _ (must-Told camera.fd (reqbufs 4) 4 "VIDIOC_REQBUFS" s)
      λ t r. elim [
        | inl ended ↦ rw ended λ c e. cc
        | inr told ↦
            rw (told.3, told.1)
              (
                tt,
                λ at _.
                    Ensures-bind regions _ (map_buffers told.0 0 camera.fd 0 []) _ _ _
                      (map_buffers-IsMapped told.0 0 camera.fd 0 [] _
                        (refl, λ j below. absurd (omega arith)))
                      λ u. elim [
                        | none ↦ λ _ c e. cc
                        | some m ↦ λ f. (
                          tt,
                          λ start _ c e.
                              let (mapped, counted) = f m refl in
                              let same : record camera {
                                buffer_count = told.0;
                                buffers_at = at;
                                buffers = m.1;
                                head = record { start = start; length = camera.head.length };
                              }
                                  ≡ c =
                                cc in
                              rw (sym same) λ j below.
                                let (b, found, inside, short) =
                                  mapped.1 j (omega (arith, counted)) in
                                (b, found, inside, ground (arith, short)),
                        )
                      ],
              )
      ]
