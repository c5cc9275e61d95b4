-- ===== src/Uvc/Convert.antt =====
-- `yuyv2rgb`: 4 bytes Y0 U Y1 V become two pixels of 3 bytes. `calloc` is taken to succeed.
pub mod Stream
pub mod Odd
use linux_tutorial.Prelude.{
  ℕ, zero, suc, ◌+◌, ◌*◌, ◌%◌, ◌^◌, true, false, Option, none, some, List, ltb, replicate,
}
use linux_tutorial.Uvc.Memory.{◌>>=◌, load, store}
use linux_tutorial.Uvc.Pixel.{red_sum, green_sum, blue_sum, channel}

-- The body of the inner loop, at `index`.
pub convert_pair : List ℕ → ℕ → List ℕ → Option (List ℕ)
convert_pair yuyv index rgb = do
  y0 ← load yuyv (index * 2 + 0)
  u ← load yuyv (index * 2 + 1)
  y1 ← load yuyv (index * 2 + 2)
  v ← load yuyv (index * 2 + 3)
  rgb ← store rgb (index * 3 + 0) (channel (red_sum y0 u v))
  rgb ← store rgb (index * 3 + 1) (channel (green_sum y0 u v))
  rgb ← store rgb (index * 3 + 2) (channel (blue_sum y0 u v))
  rgb ← store rgb (index * 3 + 3) (channel (red_sum y1 u v))
  rgb ← store rgb (index * 3 + 4) (channel (green_sum y1 u v))
  store rgb (index * 3 + 5) (channel (blue_sum y1 u v))

-- The loop over `j`, on fuel.
pub columns : ℕ → List ℕ → ℕ → ℕ → ℕ → List ℕ → Option (List ℕ)
columns zero yuyv width i j rgb = none
columns (suc f) yuyv width i j rgb = elim (ltb j width) [
  | false ↦ some rgb
  | true ↦ do rgb ← convert_pair yuyv (i * width + j) rgb; columns f yuyv width i (j + 2) rgb
]

-- The loop over `i`, with `k` rounds left.
pub rows : ℕ → List ℕ → ℕ → ℕ → List ℕ → Option (List ℕ)
unfolding columns
rows zero yuyv width i rgb = some rgb
rows (suc k) yuyv width i rgb = do
  rgb ← columns (width + 1) yuyv width i 0 rgb
  rows k yuyv width (i + 1) rgb

-- `width * height * 3` is a product of uint32_t.
pub yuyv2rgb : List ℕ → ℕ → ℕ → Option (List ℕ)
unfolding convert_pair rows
yuyv2rgb yuyv width height = rows height yuyv width 0 (replicate (width * height * 3 % 2 ^ 32) 0)
