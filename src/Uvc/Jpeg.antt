-- ===== src/Uvc/Jpeg.antt =====
-- `jpeg` of uvc/main.c: an image is copied into rows, and libjpeg writes them to a file. `calloc` is
-- taken to succeed.
pub mod Pictures
pub mod Rows
pub mod Gathering
pub mod Making
pub mod Writing
pub mod Freeing
use linux_tutorial.Prelude.{
  ℕ, zero, suc, ◌+◌, ◌*◌, ◌%◌, ◌^◌, Option, none, some, List, [], ◌∷◌, get_elem?,
}
use linux_tutorial.Prog.{ret, ◌>>=◌, ◌>>◌}
use linux_tutorial.Uvc.Calls.{
  alloc, free, overrun, fill, create_compress, stdio_dest, set_defaults, set_quality,
  start_compress, write_scanlines, finish_compress, destroy_compress, Io, perform,
}
use linux_tutorial.Uvc.Camera.{on}
use linux_tutorial.Uvc.Memory

-- The loop over `j`, with `k` pixels left: the bytes of row `i` from there on. `none` is a read past
-- the image.
pub copy_pixels : ℕ → ℕ → List ℕ → ℕ → ℕ → Option (List ℕ)
copy_pixels zero j rgb width i = some []
copy_pixels (suc k) j rgb width i = Memory.◌>>=◌ (get_elem? rgb ((i * width + j) * 3 + 0)) λ r.
    Memory.◌>>=◌ (get_elem? rgb ((i * width + j) * 3 + 1)) λ g.
      Memory.◌>>=◌ (get_elem? rgb ((i * width + j) * 3 + 2))
        λ b. Memory.◌>>=◌ (copy_pixels k (j + 1) rgb width i) λ rest. some (r ∷ g ∷ b ∷ rest)

-- The loop over `i`, with `k` rows left: the pointers of the rows.
pub make_rows : ℕ → ℕ → List ℕ → ℕ → Io (Option (List ℕ))
make_rows zero i rgb width = ret (some [])
make_rows (suc k) i rgb width = do
  row ← perform (alloc "JSAMPLE" (width * 3 % 2 ^ 32))
  elim (copy_pixels width 0 rgb width i) [
    | none ↦ do perform overrun; ret none
    | some bytes ↦ do
      perform (fill row bytes)
      on (make_rows k (i + 1) rgb width) λ rows. ret (some (row ∷ rows))
  ]

pub free_rows : List ℕ → Io (Unit {0})
free_rows [] = ret tt
free_rows (row ∷ rows) = do perform (free row); free_rows rows

-- From `jpeg_create_compress` to `jpeg_destroy_compress`.
pub compress : ℕ → List ℕ → ℕ → ℕ → ℕ → Io (Unit {0})
compress dest rows width height quality = do
  perform create_compress
  perform (stdio_dest dest)
  perform (set_defaults width height)
  perform (set_quality quality)
  perform start_compress
  perform (write_scanlines rows height)
  perform finish_compress
  perform destroy_compress

pub jpeg : ℕ → List ℕ → ℕ → ℕ → ℕ → Io (Option (Unit {0}))
unfolding make_rows compress free_rows
jpeg dest rgb width height quality = do
  image ← perform (alloc "JSAMPROW" height)
  on (make_rows height 0 rgb width) λ rows. do
    compress dest rows width height quality
    free_rows rows
    perform (free image)
    ret (some tt)
