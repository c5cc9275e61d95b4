-- ===== src/Uvc/Main.antt =====
-- `main` of uvc/main.c from the last frame on, and the whole. `fopen` is not tested for NULL.
pub mod Saving
pub mod Releasing
use linux_tutorial.Prelude.{ℕ, ◌*◌, ◌%◌, ◌^◌, Option, none, some, List}
use linux_tutorial.Prelude.Int.{ℤ, pos}
use linux_tutorial.Prog.{ret, ◌>>=◌, ◌>>◌}
use linux_tutorial.Uvc.Calls.{alloc, free, load, fill, overrun, fopen, fclose, Io, perform}
use linux_tutorial.Uvc.Convert.{yuyv2rgb}
use linux_tutorial.Uvc.Camera.{
  Camera, on, camera_open, record_image, camera_stop, camera_finish, camera_close,
}
use linux_tutorial.Uvc.Jpeg.{jpeg}

-- `yuyv2rgb` on the memory at `yuyv`: the pointer it returns, and what is there.
pub convert : ℕ → ℕ → ℕ → Io (Option (ℕ × List ℕ))
convert yuyv width height = do
  rgb ← perform (alloc "uint8_t" (width * height * 3 % 2 ^ 32))
  bytes ← perform (load yuyv (width * height * 2))
  elim (yuyv2rgb bytes width height) [
    | none ↦ do perform overrun; ret none
    | some image ↦ do perform (fill rgb image); ret (some (rgb, image))
  ]

-- From `yuyv2rgb` to `free(rgb)`.
pub save_image : Camera → Io (Option (Unit {0}))
unfolding convert
save_image camera = on (convert camera.head.start camera.width camera.height) λ rgb. do
  out ← perform (fopen "/home/wangdm/result.jpg")
  on (jpeg out rgb.1 camera.width camera.height 100)
      λ _. do perform (fclose out); perform (free rgb.0); ret (some tt)

-- From `camera_stop` to the end; `addr` is the pointer to the camera.
pub shut_down : ℕ → Camera → Io (Option ℤ)
shut_down addr camera =
    on (camera_stop camera)
      λ _. do closing ← camera_finish camera; on (camera_close addr closing) λ _. ret (some (pos 0))

pub main : Io (Option ℤ)
unfolding save_image shut_down
main = on (camera_open "/dev/video0" 352 288) λ opened.
    on (record_image opened.1) λ camera. on (save_image camera) λ _. shut_down opened.0 camera
