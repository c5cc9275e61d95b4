-- ===== src/Uvc/Main/Releasing.antt =====
-- That `main` of uvc/main.c lets go of all it takes.
use linux_tutorial.Prelude.{ℕ, Option, none, some, List, ◌≡◌, refl, sym, ap, ◌∙◌}
use linux_tutorial.Prelude.Int.{ℤ, pos}
use linux_tutorial.Prog.{ret, ◌>>◌}
use linux_tutorial.Prog.Logic.{Ensures, Ensures-bind, Ensures_mono}
use linux_tutorial.Uvc.Blocks.{update_other, update, update-update, update-none, updated}
use linux_tutorial.Uvc.Calls.{fill, overrun, perform}
use linux_tutorial.Uvc.Convert.{yuyv2rgb}
use linux_tutorial.Uvc.Holdings.{Held, holdings}
use linux_tutorial.Uvc.Camera.{
  Camera, camera_open, record_image, camera_stop, camera_finish, camera_close,
}
use linux_tutorial.Uvc.Camera.Ending.{
  Opened, camera_open-Opened, camera_stop-same, camera_close-closes,
}
use linux_tutorial.Uvc.Camera.Requests.{Unless, on-Unless}
use linux_tutorial.Uvc.Camera.Mapping.{IsHeld, copy-held, camera_finish-releases}
use linux_tutorial.Uvc.Camera.Frames.{record_image-IsHeld}
use linux_tutorial.Uvc.Jpeg.{jpeg}
use linux_tutorial.Uvc.Jpeg.Freeing.{jpeg-same}
use linux_tutorial.Uvc.Main.{convert, save_image, shut_down, main}

-- What `convert` takes: one block.
abbrev Converted : Held → Held → ℕ × List ℕ → Type 0
Converted s t rgb =
    (s.blocks rgb.0 ≡ none) × (t ≡ record s { blocks = update s.blocks rgb.0 (some tt) })

written :
    (image : Option (List ℕ)) (p : ℕ) (s : Held)
    → s.blocks p ≡ none
    → Ensures holdings
        (record s { blocks = update s.blocks p (some tt) })
        (elim image [
          | none ↦ do perform overrun; ret none
          | some bytes ↦ do perform (fill p bytes); ret (some (p, bytes))
        ])
        (Unless (Converted s))
written none p s new = (tt, λ _ _ a e. cc)
written (some bytes) p s new = (
  updated s.blocks p (some tt),
  λ _ _ a e. let same : (p, bytes) ≡ a = cc in rw (sym same) (new, refl),
)

convert-Converted :
    (yuyv width height : ℕ) (s : Held)
    → s.blocks yuyv ≡ some tt
    → Ensures holdings s (convert yuyv width height) (Unless (Converted s))
unfolding convert
convert-Converted yuyv width height s held = (
  tt,
  λ p (new, _). (
    update_other s.blocks p yuyv (some tt) tt held new,
    λ bytes _. written (yuyv2rgb bytes width height) p s new,
  ),
)

save_image-same :
    (camera : Camera) (s : Held)
    → s.file ≡ none
    → s.blocks camera.head.start ≡ some tt
    → Ensures holdings s (save_image camera) (Unless (λ t _. t ≡ s))
unfolding save_image
save_image-same camera s no_file held =
    on-Unless s (convert camera.head.start camera.width camera.height) _ (Converted s) _
      (convert-Converted camera.head.start camera.width camera.height s held)
      λ t rgb (new, same). rw same (
        no_file,
        λ out _.
            let s1 : Held = record s {
              blocks = update s.blocks rgb.0 (some tt);
              file = some out;
            } in
            on-Unless s1 (jpeg out rgb.1 camera.width camera.height 100) _ (λ u _. u ≡ s1) _
              (jpeg-same out rgb.1 camera.width camera.height 100 s1 refl)
              λ u _ still. rw still (
                refl,
                λ _ _. (
                  updated s.blocks rgb.0 (some tt),
                  λ _ _ a e.
                      ap (λ f. record s { blocks = f; file = none })
                        (update-update s.blocks rgb.0 (some tt) none
                          ∙ update-none s.blocks rgb.0 new)
                      ∙ ap (λ f. record s { file = f }) (sym no_file),
                ),
              ),
      )

-- The end of `main`, where `s` was held before `camera_init` and `t` is held now.
shut_down-closes :
    (addr : ℕ) (camera : Camera) (s t : Held)
    → IsHeld s t camera
    → s.descriptor ≡ some camera.fd
    → s.blocks addr ≡ some tt
    → Ensures holdings t (shut_down addr camera) (
        Unless (λ u r.
          (r ≡ pos 0) × (u ≡ record s { descriptor = none; blocks = update s.blocks addr none })))
unfolding shut_down
shut_down-closes addr camera s t held at there =
    on-Unless t (camera_stop camera) _ (λ u _. u ≡ t) _
      (camera_stop-same camera t (ap Held.descriptor held.4 ∙ at))
      λ u _ same. rw same (
        Ensures-bind holdings t (camera_finish camera) _ (λ v d. (v ≡ s) × (d.fd ≡ camera.fd)) _
          (camera_finish-releases s t camera held)
          λ v d (released, same_fd). rw released (
            on-Unless s (camera_close addr d) _
              (λ w _. w ≡ record s { descriptor = none; blocks = update s.blocks addr none }) _
              (camera_close-closes addr d s (at ∙ ap some (sym same_fd)) there)
              λ w _ closed r e. let zero_ : pos 0 ≡ r = cc in (sym zero_, closed)))

-- Begun with no camera and no file open, every request of `main` goes to the camera's open descriptor;
-- each block is held when a frame is copied to it or read from it, when it is filled and when it is
-- freed, and each mapping when it is unmapped, with its length. Where `main` does not quit, and no
-- access out of bounds ends it, it returns 0 and has let go of all that it took: descriptor, file,
-- mappings and blocks. All this where `malloc`, `calloc` and `fopen` do not answer NULL.
pub uvc_main-releases :
    (s : Held)
    → s.descriptor ≡ none
    → s.file ≡ none
    → Ensures holdings s main (λ t r. (a : ℤ) → r ≡ some a → (a ≡ pos 0) × (t ≡ s))
unfolding main
uvc_main-releases s no_camera no_file =
    on-Unless s (camera_open "/dev/video0" 352 288) _ (Opened s) (λ t a. (a ≡ pos 0) × (t ≡ s))
      (camera_open-Opened "/dev/video0" 352 288 s no_camera)
      λ t opened (new, same). rw same (
        let s1 : Held = record s {
          descriptor = some opened.1.fd;
          blocks = update s.blocks opened.0 (some tt);
        } in
        let back : record s {
          descriptor = none;
          blocks = update (update s.blocks opened.0 (some tt)) opened.0 none;
        }
            ≡ s =
          ap (λ f. record s { descriptor = none; blocks = f })
            (update-update s.blocks opened.0 (some tt) none ∙ update-none s.blocks opened.0 new)
          ∙ ap (λ d. record s { descriptor = d }) (sym no_camera) in
        on-Unless s1 (record_image opened.1) _ (λ u c. IsHeld s1 u c × (c.fd ≡ opened.1.fd)) _
          (record_image-IsHeld opened.1 s1 refl)
          λ u c (held, same_fd).
            on-Unless u (save_image c) _ (λ v _. v ≡ u) _
              (save_image-same c u (ap Held.file held.4 ∙ no_file) (copy-held s1 u c held))
              λ v _ still. rw still (
                Ensures_mono holdings u (shut_down opened.0 c) _ _
                  (shut_down-closes opened.0 c s1 u held (ap some (sym same_fd))
                    (updated s.blocks opened.0 (some tt)))
                  λ w r f a e. ((f a e).0, (f a e).1 ∙ back)))
