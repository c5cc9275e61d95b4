-- ===== src/Uvc/Main/Saving.antt =====
-- That `main` writes the frame it has taken.
use linux_tutorial.Prelude.{
  ℕ, zero, suc, ◌*◌, ◌%◌, ◌^◌, ◌<◌, ◌≡◌, refl, ap, ◌∙◌, none, some, List, ◌++◌, arith, length,
  length-append, take-append, replicate, length-replicate,
}
use linux_tutorial.Prog.Logic.{Ensures, Ensures-bind}
use linux_tutorial.Uvc.Convert.Stream.{
  Group, frame, image, length-frame, length-image, yuyv2rgb-image,
}
use linux_tutorial.Uvc.Camera.{Camera}
use linux_tutorial.Uvc.Jpeg.{jpeg}
use linux_tutorial.Uvc.Jpeg.Pictures.{Picture, pictures, absent}
use linux_tutorial.Uvc.Blocks.{update_other, update, update-update, update-none, updated}
use linux_tutorial.Uvc.Jpeg.Gathering.{filled}
use linux_tutorial.Uvc.Jpeg.Writing.{jpeg-writes}
use linux_tutorial.Uvc.Main.{convert, save_image}

-- `convert` leaves the image of the frame in a new block.
convert-fills :
    (yuyv half height : ℕ) (gs : List Group) (post : List ℕ) (s : Picture)
    → s.content yuyv ≡ some (frame gs ++ post)
    → length gs ≡ half * height
    → 2 * half * height * 3 < 2 ^ 32
    → Ensures pictures s (convert yuyv (2 * half) height) (λ t r.
      (p : ℕ) × (r ≡ some (p, image gs))
      × (s.content p ≡ none)
      × (t ≡ record s { content = update s.content p (some (image gs)) }))
unfolding convert
convert-fills yuyv half height gs post s there size fits =
    let small : 2 * half * height * 3 % 2 ^ 32 ≡ 2 * half * height * 3 = omega arith in
    let zeros : List ℕ = replicate (2 * half * height * 3) 0 in
    let whole : 2 * half * height * 2 ≡ length (frame gs) = omega (arith, length-frame gs) in
    let as_long : length (image gs) ≡ length zeros =
      omega (arith, length-image gs, length-replicate {A = ℕ} (2 * half * height * 3) 0) in
    rw small (
      tt,
      λ p new.
          let still = update_other s.content p yuyv (some zeros) (frame gs ++ post) there new in
          rw still (
            omega (arith, length-append (frame gs) post),
            λ bytes e.
                let read : bytes ≡ frame gs =
                  e ∙ take-append (frame gs) post (2 * half * height * 2) whole in
                rw (read, yuyv2rgb-image gs half height size fits)
                  (
                    rw (updated s.content p (some zeros)) (omega (arith, as_long)),
                    λ _ _. (
                      p,
                      refl,
                      new,
                      ap (λ f. record s { content = f })
                          (filled s.content p (image gs) zeros as_long),
                    ),
                  ),
          ),
    )

-- A row is no longer than the image.
row_small : (w h : ℕ) → 0 < h → w * h * 3 < 2 ^ 32 → w * 3 < 2 ^ 32
row_small w zero h fits = absurd (omega arith)
row_small w (suc k) h fits = omega arith

-- With a frame of an even width and a height of at least 1 in the camera's copy, its image of less than
-- 2^32 bytes, and libjpeg not in use, `main` gives libjpeg, with this width and height, exactly the
-- image of that frame; libjpeg is done with it, and every block holds afterwards what it held before.
pub save_image-writes :
    (camera : Camera) (half : ℕ) (gs : List Group) (post : List ℕ) (s : Picture)
    → camera.width ≡ 2 * half
    → 0 < camera.height
    → length gs ≡ half * camera.height
    → camera.width * camera.height * 3 < 2 ^ 32
    → s.content camera.head.start ≡ some (frame gs ++ post)
    → s.stage ≡ absent
    → Ensures pictures s (save_image camera) (λ t r.
      (r ≡ some tt)
      × (t.output ≡ image gs)
      × (t.width ≡ camera.width)
      × (t.height ≡ camera.height)
      × (t.content ≡ s.content)
      × (t.stage ≡ absent))
unfolding save_image
save_image-writes camera half gs post s even some_rows size fits there new =
    let area : camera.width * camera.height ≡ 2 * half * camera.height =
      ap (λ (n : ℕ). n * camera.height) even in
    let long : length (image gs) ≡ camera.width * camera.height * 3 =
      omega (arith, area, length-image gs) in
    let converted : Ensures pictures s (convert camera.head.start camera.width camera.height)
        (λ t r.
          (p : ℕ) × (r ≡ some (p, image gs))
          × (s.content p ≡ none)
          × (t ≡ record s { content = update s.content p (some (image gs)) })) =
      rw even (
        convert-fills camera.head.start half camera.height gs post s there size
          (omega (arith, area))) in
    Ensures-bind pictures s (convert camera.head.start camera.width camera.height) _ _ _ converted
      λ t r (p, found, unused, after).
        rw (found, after)
          (
            tt,
            λ out _.
                Ensures-bind pictures (record s { content = update s.content p (some (image gs)) })
                  (jpeg out (image gs) camera.width camera.height 100) _
                  (λ u x.
                    (x ≡ some tt)
                    × (u.output ≡ image gs)
                    × (u.width ≡ camera.width)
                    × (u.height ≡ camera.height)
                    × (u.content ≡ update s.content p (some (image gs)))
                    × (u.stage ≡ absent))
                  _
                  (jpeg-writes out (image gs) camera.width camera.height 100
                    (record s { content = update s.content p (some (image gs)) }) new long
                    (row_small camera.width camera.height some_rows fits))
                  λ u x (done, written, wide, high, same, ended). rw done (
                    tt,
                    λ _ _. (
                      rw (same, updated s.content p (some (image gs))) tt,
                      λ _ _. (
                        refl,
                        written,
                        wide,
                        high,
                        rw same (
                            update-update s.content p (some (image gs)) none
                            ∙ update-none s.content p unused),
                        ended,
                      ),
                    ),
                  ),
          )
