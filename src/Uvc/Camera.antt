-- ===== src/Uvc/Camera.antt =====
-- The camera of uvc/main.c. A function that may leave the program by `quit` answers `none` then.
pub mod Regions
pub mod Bounds
pub mod Readying
pub mod Recording
pub mod Requests
pub mod Mapping
pub mod Frames
pub mod Ending
use linux_tutorial.Prelude.{
  ℕ, zero, suc, ◌+◌, Bool, true, false, not, ◌||◌, Option, none, some, List, [], ◌∷◌, ◌++◌, String,
  ltb, get_elem?, if◌then◌else◌,
}
use linux_tutorial.Prelude.Int.{ℤ, pos}
use linux_tutorial.Prog.{ret, ◌>>=◌, ◌>>◌}
use linux_tutorial.Platform.{minus_one, is_error, is_zero}
use linux_tutorial.Uvc.Calls.{
  Request, querycap, cropcap, s_crop, streamon, streamoff, dqbuf, s_fmt, reqbufs, querybuf, qbuf,
  Data, open_device, ioctl, alloc, free, mmap, munmap, memcpy, overrun, select, close, fprintf, Io,
  perform,
}

-- `buffer_t`
pub record Buffer : Type 0 where
  pub start : ℕ
  pub length : ℕ

-- `camera_t`: `buffers` is the array that the pointer `buffers_at` points to.
pub record Camera : Type 0 where
  pub fd : ℤ
  pub width : ℕ
  pub height : ℕ
  pub buffer_count : ℕ
  pub buffers_at : ℕ
  pub buffers : List Buffer
  pub head : Buffer

abbrev pub quit : {A : Type 0} → String → Io (Option A)
quit msg = do perform (fprintf msg); ret none

-- What follows a function that may quit.
abbrev pub on : {A B : Type 0} → Io (Option A) → (A → Io (Option B)) → Io (Option B)
on m k = m >>= elim [ none ↦ ret none | some a ↦ k a ]

-- The loop of `xioctl`, with `n` tries left.
pub retry : ℕ → ℤ → (req : Request) → Data req → Io (ℤ × Data req)
retry zero fd req arg = ret (minus_one, arg)
retry (suc n) fd req arg = do
  r ← perform (ioctl fd req)
  elim (not (is_error r.value) || not r.eintr) [
    | true ↦ ret (r.value, r.arg)
    | false ↦ retry n fd req r.arg
  ]

-- `arg` is the argument as the caller has filled it.
pub xioctl : ℤ → (req : Request) → Data req → Io (ℤ × Data req)
unfolding retry
xioctl fd req arg = retry 100 fd req arg

-- A request whose failure ends the program.
pub must : ℤ → (req : Request) → Data req → String → Io (Option (Data req))
unfolding xioctl
must fd req arg msg = do
  r ← xioctl fd req arg
  elim (is_error r.0) [ true ↦ quit msg | false ↦ ret (some r.1) ]

-- The loop over the buffers in `camera_init`, from index `i` on with `k` left: `buf_max` and the
-- array so far.
pub map_buffers : ℕ → ℕ → ℤ → ℕ → List Buffer → Io (Option (ℕ × List Buffer))
unfolding must
map_buffers zero i fd buf_max buffers = ret (some (buf_max, buffers))
map_buffers (suc k) i fd buf_max buffers = on (must fd (querybuf i) (0, 0) "VIDIOC_QUERYBUF") λ buf.
    do
      start ← perform (mmap buf.0 fd buf.1)
      elim start [
        | none ↦ quit "mmap"
        | some p ↦
            map_buffers k (i + 1) fd (if ltb buf_max buf.0 then buf.0 else buf_max)
              (buffers ++ (record { start = p; length = buf.0 } ∷ []))
      ]

-- `camera_init` from VIDIOC_REQBUFS on.
pub request_buffers : Camera → Io (Option Camera)
unfolding map_buffers must
request_buffers camera = on (must camera.fd (reqbufs 4) 4 "VIDIOC_REQBUFS") λ count. do
  buffers_at ← perform (alloc "buffer_t" count)
  on (map_buffers count 0 camera.fd 0 []) λ mapped. do
    start ← perform (alloc "uint8_t" mapped.0)
    ret (
        some (record camera {
          buffer_count = count;
          buffers_at = buffers_at;
          buffers = mapped.1;
          head = record { start = start; length = camera.head.length };
        }))

pub camera_capture : Camera → Io (Bool × Camera)
unfolding xioctl
camera_capture camera = do
  r ← xioctl camera.fd dqbuf (0, 0)
  elim (is_error r.0) [
    | true ↦ ret (false, camera)
    | false ↦ do
      let index : ℕ = r.1.0
      let bytesused : ℕ = r.1.1
      elim (get_elem? camera.buffers index) [
        | none ↦ perform overrun
        | some buffer ↦ perform (memcpy camera.head.start buffer.start bytesused)
      ]
      let filled : Camera = record camera {
        head = record { start = camera.head.start; length = bytesused };
      }
      q ← xioctl camera.fd (qbuf index) tt
      ret (not (is_error q.0), filled)
  ]

pub camera_frame : Camera → Io (Option (Bool × Camera))
unfolding camera_capture
camera_frame camera = do
  r ← perform (select camera.fd)
  elim (is_error r) [
    | true ↦ quit "select"
    | false ↦ elim (is_zero r) [
      | true ↦ ret (some (false, camera))
      | false ↦ do captured ← camera_capture camera; ret (some captured)
    ]
  ]

-- The pointer and what it points to. `malloc` is written through with no test.
pub camera_open : String → ℕ → ℕ → Io (Option (ℕ × Camera))
camera_open device width height = do
  fd ← perform (open_device device)
  elim (is_error fd) [
    | true ↦ quit "open"
    | false ↦ do
      addr ← perform (alloc "camera_t" 1)
      ret (
          some (
            addr,
            record {
              fd = fd;
              width = width;
              height = height;
              buffer_count = 0;
              buffers_at = 0;
              buffers = [];
              head = record { start = 0; length = 0 };
            },
          ))
  ]

-- The cropping in `camera_init`; a failure of VIDIOC_S_CROP is passed over.
pub set_crop : ℤ → Io (Unit {0})
unfolding xioctl
set_crop fd = do
  crop ← xioctl fd cropcap tt
  elim (is_zero crop.0) [ true ↦ do xioctl fd s_crop tt; ret tt | false ↦ ret tt ]

-- `camera_init` up to VIDIOC_S_FMT.
pub set_format : Camera → Io (Option (Unit {0}))
unfolding must set_crop
set_format camera = on (must camera.fd querycap (false, false) "VIDIOC_QUERYCAP") λ cap.
    elim (cap.0) [
      | false ↦ quit "no capture"
      | true ↦ elim (cap.1) [
        | false ↦ quit "no streaming"
        | true ↦ do
          set_crop camera.fd
          on (must camera.fd (s_fmt camera.width camera.height) tt "VIDIOC_S_FMT")
              λ _. ret (some tt)
      ]
    ]

pub camera_init : Camera → Io (Option Camera)
unfolding set_format request_buffers
camera_init camera = on (set_format camera) λ _. request_buffers camera

-- The loop of `camera_start`, from index `i` on with `k` buffers left.
pub queue_buffers : ℕ → ℕ → ℤ → Io (Option (Unit {0}))
unfolding must
queue_buffers zero i fd = ret (some tt)
queue_buffers (suc k) i fd = on (must fd (qbuf i) tt "VIDIOC_QBUF") λ _. queue_buffers k (i + 1) fd

pub camera_start : Camera → Io (Option (Unit {0}))
unfolding queue_buffers must
camera_start camera =
    on (queue_buffers camera.buffer_count 0 camera.fd)
      λ _. must camera.fd streamon tt "VIDIOC_STREAMON"

pub camera_stop : Camera → Io (Option (Unit {0}))
unfolding must
camera_stop camera = must camera.fd streamoff tt "VIDIOC_STREAMOFF"

-- The loop of `camera_finish`, from index `i` on with `k` buffers left.
pub unmap_buffers : ℕ → ℕ → List Buffer → Io (Unit {0})
unmap_buffers zero i buffers = ret tt
unmap_buffers (suc k) i buffers = do
  elim (get_elem? buffers i) [
    | none ↦ perform overrun
    | some b ↦ do perform (munmap b.start b.length); ret tt
  ]
  unmap_buffers k (i + 1) buffers

pub camera_finish : Camera → Io Camera
unfolding unmap_buffers
camera_finish camera = do
  unmap_buffers camera.buffer_count 0 camera.buffers
  perform (free camera.buffers_at)
  perform (free camera.head.start)
  ret (record camera {
    buffer_count = 0;
    buffers_at = 0;
    buffers = [];
    head = record { start = 0; length = 0 };
  })

pub camera_close : ℕ → Camera → Io (Option (Unit {0}))
camera_close addr camera = do
  closed ← perform (close camera.fd)
  elim (is_error closed) [ true ↦ quit "close" | false ↦ do perform (free addr); ret (some tt) ]

-- `n` calls of `camera_frame` in `main`, which looks at none of their results.
pub take_frames : ℕ → Camera → Io (Option Camera)
unfolding camera_frame
take_frames zero camera = ret (some camera)
take_frames (suc n) camera = on (camera_frame camera) λ r. take_frames n r.1

-- `main` from `camera_init` to the last `camera_frame`: 5 frames for the camera to boot, and one.
pub record_image : Camera → Io (Option Camera)
unfolding camera_init camera_start take_frames
record_image camera =
    on (camera_init camera) λ c. on (camera_start c) λ _. on (take_frames 5 c) (take_frames 1)
