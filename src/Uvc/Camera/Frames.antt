-- ===== src/Uvc/Camera/Frames.antt =====
-- Taking frames changes of what is held nothing, and of the camera only the length of the copy.
use linux_tutorial.Prelude.{
  ℕ, zero, suc, false, Option, none, some, ◌≡◌, refl, sym, ap, ◌∙◌, get_elem?,
}
use linux_tutorial.Prog.Logic.{Ensures, Ensures-bind, Ensures-elim, Ensures_mono}
use linux_tutorial.Platform.{is_error, is_zero}
use linux_tutorial.Uvc.Calls.{dqbuf, qbuf, overrun, memcpy, perform}
use linux_tutorial.Uvc.Holdings.{Held, holdings}
use linux_tutorial.Uvc.Camera.{
  Buffer, Camera, retry, xioctl, camera_init, camera_start, camera_capture, camera_frame,
  take_frames, record_image,
}
use linux_tutorial.Uvc.Camera.Requests.{Unless, on-Unless, retry-same, camera_start-same}
use linux_tutorial.Uvc.Camera.Mapping.{IsHeld, copy-held, camera_init-IsHeld}

-- `d` is `c` with another length of the copy.
abbrev pub Like : Camera → Camera → Type 0
Like c d = (n : ℕ) × (d ≡ record c { head = record { start = c.head.start; length = n } })

Like-trans : (c d e : Camera) → Like c d → Like d e → Like c e
Like-trans c d e (m, first) (n, second) = (
  n,
  second
      ∙ ap (λ (x : Camera). record x { head = record { start = x.head.start; length = n } }) first,
)

-- The copy of a frame.
copy-same :
    (b : Option Buffer) (to n : ℕ) (s : Held)
    → s.blocks to ≡ some tt
    → Ensures holdings s
        (elim b [ none ↦ perform overrun | some buffer ↦ perform (memcpy to buffer.start n) ])
        (λ t _. t ≡ s)
copy-same none to n s h = (tt, λ _ _. refl)
copy-same (some b) to n s h = (h, λ _ _. refl)

camera_capture-Like :
    (camera : Camera) (s : Held)
    → s.descriptor ≡ some camera.fd
    → s.blocks camera.head.start ≡ some tt
    → Ensures holdings s (camera_capture camera) (λ t r. (t ≡ s) × Like camera r.1)
unfolding camera_capture xioctl
camera_capture-Like camera s h there =
    Ensures-bind holdings s (retry 100 camera.fd dqbuf (0, 0)) _ (λ t _. t ≡ s)
      (λ t r. (t ≡ s) × Like camera r.1) (retry-same 100 camera.fd dqbuf (0, 0) s h)
      λ t r same. rw same (
        Ensures-elim holdings (is_error r.0) _ _ _ _ (λ _. (refl, (camera.head.length, refl)))
          λ _.
            Ensures-bind holdings s _ _ (λ u _. u ≡ s) (λ t r. (t ≡ s) × Like camera r.1)
              (copy-same (get_elem? camera.buffers r.1.0) camera.head.start r.1.1 s there)
              λ u _ still. rw still (
                Ensures-bind holdings s (retry 100 camera.fd (qbuf r.1.0) tt) _ (λ v _. v ≡ s)
                  (λ t r. (t ≡ s) × Like camera r.1) (retry-same 100 camera.fd (qbuf r.1.0) tt s h)
                  λ v q stays. (stays, (r.1.1, refl))))

camera_frame-Like :
    (camera : Camera) (s : Held)
    → s.descriptor ≡ some camera.fd
    → s.blocks camera.head.start ≡ some tt
    → Ensures holdings s (camera_frame camera) (Unless (λ t a. (t ≡ s) × Like camera a.1))
unfolding camera_frame
camera_frame-Like camera s h there = (
  h,
  λ r _.
      Ensures-elim holdings (is_error r) _ _ _ _ (λ _. (tt, λ _ _ a e. cc))
        λ _.
          Ensures-elim holdings (is_zero r) _ _ _ _
            (λ _ a e.
              let same : (false, camera) ≡ a = cc in
              rw (sym same) (refl, (camera.head.length, refl)))
            λ _.
              Ensures-bind holdings s (camera_capture camera) _ _ _
                (camera_capture-Like camera s h there)
                λ t captured still a e. let same : captured ≡ a = cc in rw (sym same) still,
)

-- The descriptor is that of any camera like it.
Like-fd : (c d : Camera) → Like c d → d.fd ≡ c.fd
Like-fd c d (n, same) = ap Camera.fd same

Like-start : (c d : Camera) → Like c d → d.head.start ≡ c.head.start
Like-start c d (n, same) = ap (λ (x : Camera). x.head.start) same

take_frames-Like :
    (n : ℕ) (camera : Camera) (s : Held)
    → s.descriptor ≡ some camera.fd
    → s.blocks camera.head.start ≡ some tt
    → Ensures holdings s (take_frames n camera) (Unless (λ t c. (t ≡ s) × Like camera c))
unfolding take_frames
take_frames-Like zero camera s h there =
    λ c e. let same : camera ≡ c = cc in rw (sym same) (refl, (camera.head.length, refl))
take_frames-Like (suc n) camera s h there =
    on-Unless s (camera_frame camera) _ (λ t a. (t ≡ s) × Like camera a.1) _
      (camera_frame-Like camera s h there)
      λ t a (same, like). rw same (
        Ensures_mono holdings s (take_frames n a.1) _ _
          (take_frames-Like n a.1 s (h ∙ ap some (sym (Like-fd camera a.1 like)))
            (ap s.blocks (Like-start camera a.1 like) ∙ there))
          λ u r f c e. ((f c e).0, Like-trans camera a.1 c like (f c e).1))

IsHeld-Like : (s t : Held) (c d : Camera) → IsHeld s t c → Like c d → IsHeld s t d
IsHeld-Like s t c d held (n, same) = rw same held

-- After the last frame the camera is as `camera_init` has set it up.
pub record_image-IsHeld :
    (camera : Camera) (s : Held)
    → s.descriptor ≡ some camera.fd
    → Ensures holdings s (record_image camera) (Unless (λ t c. IsHeld s t c × (c.fd ≡ camera.fd)))
unfolding record_image
record_image-IsHeld camera s h =
    on-Unless s (camera_init camera) _ (λ t c. IsHeld s t c × (c.fd ≡ camera.fd)) _
      (camera_init-IsHeld camera s h)
      λ t c (held, same_fd).
        let at : t.descriptor ≡ some c.fd = ap Held.descriptor held.4 ∙ h ∙ ap some (sym same_fd) in
        let held_copy = copy-held s t c held in
        on-Unless t (camera_start c) _ (λ u _. u ≡ t) _ (camera_start-same c t at)
          λ u _ same. rw same (
            on-Unless t (take_frames 5 c) (take_frames 1) (λ v d. (v ≡ t) × Like c d) _
              (take_frames-Like 5 c t at held_copy)
              λ v d (still, like). rw still (
                Ensures_mono holdings t (take_frames 1 d) _ _
                  (take_frames-Like 1 d t (at ∙ ap some (sym (Like-fd c d like)))
                    (ap t.blocks (Like-start c d like) ∙ held_copy))
                  λ x r f e found.
                    let (stays, like') = f e found in
                    let whole = Like-trans c d e like like' in
                    (rw stays (IsHeld-Like s t c e held whole), Like-fd c e whole ∙ same_fd)))
