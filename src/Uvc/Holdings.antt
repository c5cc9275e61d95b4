-- ===== src/Uvc/Holdings.antt =====
-- What uvc/main.c holds: blocks of memory, mappings with their lengths, the camera's descriptor and
-- the file. The documents that are used: `malloc`, `calloc` and `mmap` answer what is not in use. The
-- conditions: `malloc`, `calloc` and `fopen` do not answer NULL.
use linux_tutorial.Prelude.{ℕ, ◌≡◌, false, Option, none, some, if◌then◌else◌}
use linux_tutorial.Prelude.Int.{ℤ}
use linux_tutorial.Prog.Logic.{Monitor}
use linux_tutorial.Platform.{is_error, is_null}
use linux_tutorial.Uvc.Blocks.{update}
use linux_tutorial.Uvc.Calls.{
  Call, Reply, open_device, ioctl, alloc, free, mmap, munmap, select, close, fill, load, memcpy,
  fopen, fclose, stdio_dest,
}

pub record Held : Type 0 where
  pub blocks : ℕ → Option (Unit {0})
  pub maps : ℕ → Option ℕ
  pub descriptor : Option ℤ
  pub file : Option ℕ

abbrev pub Allowed : Held → Call → Type 0
Allowed s (open_device _) = s.descriptor ≡ none
Allowed s (ioctl fd _) = s.descriptor ≡ some fd
Allowed s (select fd) = s.descriptor ≡ some fd
Allowed s (close fd) = s.descriptor ≡ some fd
Allowed s (free p) = s.blocks p ≡ some tt
Allowed s (fill p _) = s.blocks p ≡ some tt
Allowed s (load p _) = s.blocks p ≡ some tt
Allowed s (memcpy to _ _) = s.blocks to ≡ some tt
Allowed s (munmap p n) = s.maps p ≡ some n
Allowed s (fopen _) = s.file ≡ none
Allowed s (fclose p) = s.file ≡ some p
Allowed s (stdio_dest p) = s.file ≡ some p
Allowed s _ = Unit

abbrev pub Documented : Held → (c : Call) → Reply c → Type 0
Documented s (alloc _ _) p = (s.blocks p ≡ none) × (is_null p ≡ false)
Documented s (mmap _ _ _) (some p) = s.maps p ≡ none
Documented s (fopen _) p = is_null p ≡ false
Documented s _ r = Unit

abbrev pub next : Held → (c : Call) → Reply c → Held
next s (open_device _) r = if is_error r then s else record s { descriptor = some r }
next s (close _) r = record s { descriptor = none }
next s (alloc _ _) p = record s { blocks = update s.blocks p (some tt) }
next s (free p) r = record s { blocks = update s.blocks p none }
next s (mmap n _ _) (some p) = record s { maps = update s.maps p (some n) }
next s (munmap p _) r = record s { maps = update s.maps p none }
next s (fopen _) p = record s { file = some p }
next s (fclose _) r = record s { file = none }
next s _ r = s

abbrev pub holdings : Monitor Call Reply
holdings = record { State = Held; Allowed = Allowed; Documented = Documented; next = next }
