-- ===== src/Uvc/Camera/Regions.antt =====
-- Which memory the camera may copy between. The documents that are used: a frame that the driver
-- hands out lies in a buffer that it was asked for and fills no more than its length, and memory is ample.
use linux_tutorial.Prelude.{
  ℕ, ◌<◌, ◌≤◌, ◌≡◌, ◌≢◌, Bool, true, false, ◌&&◌, ◌||◌, some, List, [], ◌∷◌, leb, ◌==◌,
  if◌then◌else◌,
}
use linux_tutorial.Prog.Logic.{Monitor}
use linux_tutorial.Platform.{is_error}
use linux_tutorial.Uvc.Calls.{
  Request, dqbuf, reqbufs, querybuf, Data, Call, Reply, ioctl, alloc, mmap, memcpy, overrun,
}

-- The blocks of memory and the mappings, each by start and size, and the driver's buffers.
pub record Regions : Type 0 where
  pub heap : List (ℕ × ℕ)
  pub maps : List (ℕ × ℕ)
  pub count : ℕ
  pub lengths : ℕ → ℕ

-- Some region that starts at `p` has `n` bytes.
abbrev pub fits : ℕ → ℕ → List (ℕ × ℕ) → Bool
fits p n [] = false
fits p n (r ∷ rs) = (p == r.0 && leb n r.1) || fits p n rs

abbrev pub Allowed : Regions → Call → Type 0
Allowed s (memcpy to from n) = (fits to n s.heap ≡ true) × (fits from n s.maps ≡ true)
Allowed s overrun = false ≡ true
Allowed s _ = Unit

-- A request that succeeds.
abbrev pub Tells : Regions → (req : Request) → Data req → Type 0
Tells s dqbuf arg = (arg.0 < s.count) × (arg.1 ≤ s.lengths arg.0)
Tells s _ arg = Unit

abbrev pub effect : Regions → (req : Request) → Data req → Regions
effect s (reqbufs _) arg = record s { count = arg }
effect s (querybuf i) arg = record s { lengths = λ j. if j == i then arg.0 else s.lengths j }
effect s _ arg = s

abbrev pub Documented : Regions → (c : Call) → Reply c → Type 0
Documented s (ioctl _ req) r = is_error r.value ≡ false → Tells s req r.arg
Documented s (alloc _ _) p = p ≢ 0
Documented s _ r = Unit

abbrev pub next : Regions → (c : Call) → Reply c → Regions
next s (ioctl _ req) r = if is_error r.value then s else effect s req r.arg
next s (alloc _ n) p = record s { heap = (p, n) ∷ s.heap }
next s (mmap n _ _) (some p) = record s { maps = (p, n) ∷ s.maps }
next s _ _ = s

abbrev pub regions : Monitor Call Reply
regions = record { State = Regions; Allowed = Allowed; Documented = Documented; next = next }
