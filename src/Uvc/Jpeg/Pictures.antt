-- ===== src/Uvc/Jpeg/Pictures.antt =====
-- What the blocks hold, and what libjpeg has been given. The documents that are used: `calloc` answers
-- a new block of zeros; libjpeg's calls come in one order, a row has 3 bytes for each pixel, and the
-- image is complete only with all its rows.
use linux_tutorial.Prelude.{
  ℕ, zero, suc, ◌+◌, ◌*◌, ◌≤◌, ◌≡◌, true, false, Option, none, some, List, [], ◌∷◌, ◌++◌, length,
  replicate, take, drop, leb, if◌then◌else◌,
}
use linux_tutorial.Prog.Logic.{Monitor}
use linux_tutorial.Uvc.Calls.{
  Call, Reply, alloc, free, fill, load, create_compress, stdio_dest, set_defaults, set_quality,
  start_compress, write_scanlines, finish_compress, destroy_compress, overrun,
}
use linux_tutorial.Uvc.Blocks.{update}
use linux_tutorial.Uvc.Memory

-- How far libjpeg is.
pub data Stage : Type 0 where
  absent created directed described started finished : Stage

-- `output` are the bytes of the rows that were written.
pub record Picture : Type 0 where
  pub content : ℕ → Option (List ℕ)
  pub stage : Stage
  pub width : ℕ
  pub height : ℕ
  pub lines : ℕ
  pub output : List ℕ

-- `bytes` over the start of `old`.
abbrev pub over : List ℕ → List ℕ → List ℕ
over bytes old = bytes ++ drop (length bytes) old

-- The first `size` bytes of each of the first `n` rows.
abbrev pub gather : (ℕ → Option (List ℕ)) → ℕ → ℕ → List ℕ → Option (List ℕ)
gather c size zero ps = some []
gather c size (suc n) [] = none
gather c size (suc n) (p ∷ ps) = Memory.◌>>=◌ (c p) λ row.
    if leb size (length row)
    then Memory.◌>>=◌ (gather c size n ps) (λ rest. some (take size row ++ rest))
    else none

abbrev pub Present : Option (List ℕ) → ℕ → Type 0
Present none n = false ≡ true
Present (some bytes) n = n ≤ length bytes

abbrev pub IsSome : Option (List ℕ) → Type 0
IsSome none = false ≡ true
IsSome (some bytes) = Unit

abbrev pub bytes_of : Option (List ℕ) → List ℕ
bytes_of none = []
bytes_of (some bytes) = bytes

abbrev pub Allowed : Picture → Call → Type 0
Allowed s (free p) = IsSome (s.content p)
Allowed s (fill p bytes) = Present (s.content p) (length bytes)
Allowed s (load p n) = Present (s.content p) n
Allowed s overrun = false ≡ true
Allowed s create_compress = s.stage ≡ absent
Allowed s (stdio_dest _) = s.stage ≡ created
Allowed s (set_defaults _ _) = s.stage ≡ directed
Allowed s (set_quality _) = s.stage ≡ described
Allowed s start_compress = s.stage ≡ described
Allowed s (write_scanlines ps n) =
    (s.stage ≡ started) × (s.lines + n ≤ s.height) × IsSome (gather s.content (s.width * 3) n ps)
Allowed s finish_compress = (s.stage ≡ started) × (s.lines ≡ s.height)
Allowed s destroy_compress = s.stage ≡ finished
Allowed s _ = Unit

abbrev pub Documented : Picture → (c : Call) → Reply c → Type 0
Documented s (alloc _ _) p = s.content p ≡ none
Documented s (load p n) r = r ≡ take n (bytes_of (s.content p))
Documented s _ r = Unit

abbrev pub next : Picture → (c : Call) → Reply c → Picture
next s (alloc _ n) p = record s { content = update s.content p (some (replicate n 0)) }
next s (free p) r = record s { content = update s.content p none }
next s (fill p bytes) r = record s {
  content = update s.content p (some (over bytes (bytes_of (s.content p))));
}
next s create_compress r = record s { stage = created }
next s (stdio_dest _) r = record s { stage = directed }
next s (set_defaults width height) r = record s {
  stage = described;
  width = width;
  height = height;
}
next s start_compress r = record s { stage = started; lines = 0; output = [] }
next s (write_scanlines ps n) r = record s {
  lines = s.lines + n;
  output = s.output ++ bytes_of (gather s.content (s.width * 3) n ps);
}
next s finish_compress r = record s { stage = finished }
next s destroy_compress r = record s { stage = absent }
next s _ r = s

abbrev pub pictures : Monitor Call Reply
pictures = record { State = Picture; Allowed = Allowed; Documented = Documented; next = next }
