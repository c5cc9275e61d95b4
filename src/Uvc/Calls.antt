-- ===== src/Uvc/Calls.antt =====
-- The calls that uvc/main.c makes: Video4Linux requests, memory, mappings, files and libjpeg.
use linux_tutorial.Prelude.{ℕ, Bool, Option, List, String}
use linux_tutorial.Prelude.Int.{ℤ}
use linux_tutorial.Prog.{Prog, ret, call}

-- The requests, with what differs between their calls: VIDIOC_QUERYCAP and so on.
pub data Request : Type 0 where
  querycap cropcap s_crop streamon streamoff dqbuf : Request
  s_fmt : ℕ → ℕ → Request  -- width and height
  reqbufs : ℕ → Request  -- how many buffers
  querybuf qbuf : ℕ → Request  -- of the buffer with that index

-- What the driver writes to the argument, as far as the program reads it.
abbrev pub Data : Request → Type 0
Data querycap = Bool × Bool  -- captures video, streams
Data (reqbufs _) = ℕ  -- the number of buffers
Data (querybuf _) = ℕ × ℕ  -- length and offset
Data dqbuf = ℕ × ℕ  -- index and bytesused
Data _ = Unit

-- The answer of `ioctl`: its value, whether `errno` is EINTR, and the argument.
pub record Answer (req : Request) : Type 0 where
  pub value : ℤ
  pub eintr : Bool
  pub arg : Data req

pub data Call : Type 0 where
  open_device : String → Call
  ioctl : ℤ → Request → Call
  alloc : String → ℕ → Call  -- `malloc` or `calloc` of that many values of the named type
  free : ℕ → Call
  mmap : ℕ → ℤ → ℕ → Call  -- length, descriptor, offset; `none` is MAP_FAILED
  munmap : ℕ → ℕ → Call
  memcpy : ℕ → ℕ → ℕ → Call
  overrun : Call  -- a read of an array past its end
  select : ℤ → Call
  close : ℤ → Call
  fprintf : String → Call
  load : ℕ → ℕ → Call  -- a read of that many bytes
  fill : ℕ → List ℕ → Call  -- bytes are written from the start of a block on
  fopen : String → Call
  fclose : ℕ → Call
  create_compress : Call
  stdio_dest : ℕ → Call
  set_defaults : ℕ → ℕ → Call  -- after the width and height of an RGB image
  set_quality : ℕ → Call
  start_compress : Call
  write_scanlines : List ℕ → ℕ → Call  -- the rows by their pointers, and how many
  finish_compress : Call
  destroy_compress : Call

abbrev pub Reply : Call → Type 0
Reply (ioctl _ req) = Answer req
Reply (alloc _ _) = ℕ
Reply (mmap _ _ _) = Option ℕ
Reply (free _) = Unit
Reply (memcpy _ _ _) = Unit
Reply (load _ _) = List ℕ
Reply (fill _ _) = Unit
Reply (fopen _) = ℕ
Reply create_compress = Unit
Reply (stdio_dest _) = Unit
Reply (set_defaults _ _) = Unit
Reply (set_quality _) = Unit
Reply start_compress = Unit
Reply (write_scanlines _ _) = Unit
Reply finish_compress = Unit
Reply destroy_compress = Unit
Reply overrun = Unit
Reply (fprintf _) = Unit
Reply _ = ℤ

abbrev pub Io : Type 0 → Type 0
Io A = Prog Call Reply A

abbrev pub perform : (c : Call) → Io (Reply c)
perform c = call c ret
