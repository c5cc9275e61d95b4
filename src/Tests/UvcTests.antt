-- ===== src/Tests/UvcTests.antt =====
-- uvc/main.c at concrete inputs.
use linux_tutorial.Prelude.{refl, ◌++◌, ◌==◌, if◌then◌else◌, ◌≡◌, none, some, [], ◌∷◌, List, arith}
use linux_tutorial.Prelude.Int.{ℤ, pos}
use linux_tutorial.Uvc.Convert.{yuyv2rgb}
use linux_tutorial.Uvc.Convert.Stream.{Group, frame, image, yuyv2rgb-image}
use linux_tutorial.Uvc.Jpeg.Pictures.{Picture, absent, pictures}
use linux_tutorial.Uvc.Holdings.{Held, holdings}
use linux_tutorial.Uvc.Main.{save_image, main}
use linux_tutorial.Uvc.Main.Releasing.{uvc_main-releases}
use linux_tutorial.Uvc.Main.Saving.{save_image-writes}
use linux_tutorial.Prog.Logic.{Ensures}
use linux_tutorial.Uvc.Camera.{Camera, record_image}
use linux_tutorial.Uvc.Camera.Regions.{Regions, regions}
use linux_tutorial.Uvc.Camera.Bounds.{IsReady}
use linux_tutorial.Uvc.Camera.Recording.{record_image-IsReady}

abbrev two_groups : List Group
two_groups =
    record { y0 = 16; u = 90; y1 = 235; v = 240 } ∷ record { y0 = 0; u = 0; y1 = 255; v = 255 } ∷ []

yuyv2rgb-image_example : yuyv2rgb (frame two_groups) 2 2 ≡ some (image two_groups)
yuyv2rgb-image_example = yuyv2rgb-image two_groups 1 2 (omega arith) (omega arith)

abbrev camera : Camera
camera = record {
  fd = pos 3;
  width = 352;
  height = 288;
  buffer_count = 0;
  buffers_at = 0;
  buffers = [];
  head = record { start = 0; length = 0 };
}

abbrev nothing_mapped : Regions
nothing_mapped = record { heap = []; maps = []; count = 0; lengths = λ _. 0 }

record_image-IsReady_example :
    Ensures regions nothing_mapped
      (record_image camera)
      (λ t r. (c : Camera) → r ≡ some c → IsReady t c)
record_image-IsReady_example = record_image-IsReady camera nothing_mapped

-- A camera of 2 * 2 pixels whose copy at 7 holds the frame of the two groups, and one byte more.
abbrev small_camera : Camera
small_camera = record {
  fd = pos 3;
  width = 2;
  height = 2;
  buffer_count = 0;
  buffers_at = 0;
  buffers = [];
  head = record { start = 7; length = 8 };
}

abbrev with_frame : Picture
with_frame = record {
  content = λ p. if p == 7 then some (frame two_groups ++ (0 ∷ [])) else none;
  stage = absent;
  width = 0;
  height = 0;
  lines = 0;
  output = [];
}

save_image-writes_example : Ensures pictures with_frame (save_image small_camera) (λ t r.
    (r ≡ some tt)
    × (t.output ≡ image two_groups)
    × (t.width ≡ 2)
    × (t.height ≡ 2)
    × (t.content ≡ with_frame.content)
    × (t.stage ≡ absent))
save_image-writes_example =
    save_image-writes small_camera 1 two_groups (0 ∷ []) with_frame refl (omega arith) refl
      (omega arith) refl refl

abbrev holds_nothing : Held
holds_nothing = record { blocks = λ _. none; maps = λ _. none; descriptor = none; file = none }

uvc_main-releases_example :
    Ensures holdings holds_nothing main
      (λ t r. (a : ℤ) → r ≡ some a → (a ≡ pos 0) × (t ≡ holds_nothing))
uvc_main-releases_example = uvc_main-releases holds_nothing refl refl
