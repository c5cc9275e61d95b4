-- ===== src/Log.antt =====
-- include/log.h: the lines that the macros print, and `wdm_log_data`, the dump of a block of bytes.
-- Texts are their bytes.
pub mod Dump
pub mod Reading
use linux_tutorial.Prelude.{
  ℕ, zero, suc, ◌+◌, ◌%◌, Bool, true, false, ◌||◌, Option, none, some, List, [], ◌∷◌, String, ◌==◌,
  if◌then◌else◌, get_elem?, ◌++◌, drop, leb,
}
use linux_tutorial.Prelude.Text.{codes}
use linux_tutorial.Prelude.Decimal.{decimal}
use linux_tutorial.Platform.{Level, trace, debug, info, warn, error, fatal, level_number}
use linux_tutorial.Prelude.Int.{ℤ, pos, negsuc, pos_part, ltb_ℤ, ◌≤ℤ◌}

pub data Color : Type 0 where
  black red green yellow blue magenta cyan white : Color

-- The escape character and what follows it.
abbrev pub escape : String → List ℕ
escape s = 27 ∷ codes s

abbrev pub color : Color → List ℕ
color black = escape "[30m"
color red = escape "[31m"
color green = escape "[32m"
color yellow = escape "[33m"
color blue = escape "[34m"
color magenta = escape "[35m"
color cyan = escape "[36m"
color white = escape "[37m"

abbrev pub bold : Color → List ℕ
bold c = escape "[1m" ++ color c

-- RESET
abbrev pub reset_color : List ℕ
reset_color = escape "[0m"

-- LOG_COLOR_TRACE to LOG_COLOR_FATAL
abbrev pub level_color : Level → List ℕ
level_color trace = color green
level_color debug = color cyan
level_color info = color white
level_color warn = color yellow
level_color error = color red
level_color fatal = bold red

abbrev pub tag : Level → String
tag trace = "[TRACE]"
tag debug = "[DEBUG]"
tag info = "[INFO ]"
tag warn = "[WARN ]"
tag error = "[ERROR]"
tag fatal = "[FATAL]"

-- WDM_SOURCE_ROOT_LENGTH, where the build defines it.
abbrev pub source_root_length : Option ℕ → ℕ
source_root_length (some n) = n
source_root_length none = 0

abbrev pub bracketed : List ℕ → List ℕ → List ℕ
bracketed xs rest = b'[' ∷ (xs ++ (b']' ∷ rest))

-- "[%s][%s][%d]:" and what follows it; `number` is `__LINE__`.
abbrev pub place : List ℕ → List ℕ → ℕ → List ℕ → List ℕ
place file function number rest =
    bracketed file (bracketed function (bracketed (decimal number) (b':' ∷ rest)))

-- The line of LOG_TRACE to LOG_FATAL with `text` for the format and its arguments. LENGTH is to be no
-- more than the length of `__FILE__`: past that the C is out of bounds, and nothing is left here.
abbrev pub line : Level → Option ℕ → List ℕ → List ℕ → ℕ → List ℕ → List ℕ
line level root file function number text =
    level_color level
    ++ (codes (tag level)
        ++ place (drop (source_root_length root) file) function number (text ++ (10 ∷ reset_color)))

-- What one `printf` writes: the heading, a line's end, "%02X " of a byte, or the end.
pub data Piece : Type 0 where
  heading : List ℕ → Piece
  newline reset : Piece
  byte : ℕ → Piece

-- `max` after the code has set it to `size` where it is out of range.
abbrev pub limit : ℤ → ℤ → ℤ
limit size max = if ltb_ℤ size max || ltb_ℤ max (pos 1) then size else max

-- `i % split` takes its sign from `i`, so that of `split` does not matter.
abbrev pub magnitude : ℤ → ℕ
magnitude (pos n) = n
magnitude (negsuc n) = suc n

-- What a round prints, before what the others do.
abbrev pub round : ℕ → ℕ → ℕ → List Piece → List Piece
round split i c rest = if i % split == 0 then newline ∷ byte c ∷ rest else byte c ∷ rest

-- The loop from `i` on with `k` bytes left; `none` is a division by 0 or a read past the block.
pub dump : ℕ → ℕ → List ℕ → ℕ → Option (List Piece)
dump zero i data_ split = some (reset ∷ [])
dump (suc k) i data_ split =
    let rest = dump k (i + 1) data_ split in
    elim (split == 0) [
      | true ↦ none
      | false ↦ elim (get_elem? data_ i) [
        | none ↦ none
        | some c ↦ elim rest [ none ↦ none | some pieces ↦ some (round split i c pieces) ]
      ]
    ]

-- `data` is NULL or a block.
pub wdm_log_data : List ℕ → List ℕ → ℕ → List ℕ → Option (List ℕ) → ℤ → ℤ → ℤ → Option (List Piece)
unfolding dump
wdm_log_data file function number str none size max split = some []
wdm_log_data file function number str (some data_) size max split = elim (ltb_ℤ size (pos 1)) [
  | true ↦ some []
  | false ↦ elim (dump (pos_part (limit size max)) 0 data_ (magnitude split)) [
    | none ↦ none
    | some pieces ↦
        some (heading (color green ++ (codes "[FATAL]" ++ place file function number str)) ∷ pieces)
  ]
]

-- LOG_DATA, with LOG_LEVEL and WDM_SOURCE_ROOT_LENGTH as the build sets them.
pub log_data :
    ℕ → Option ℕ → List ℕ → List ℕ → ℕ → List ℕ → Option (List ℕ) → ℤ → ℤ → ℤ → Option (List Piece)
unfolding wdm_log_data
log_data level root file function number str data_ size max split =
    elim (leb (level_number trace) level) [
      | true ↦
          wdm_log_data (drop (source_root_length root) file) function number str data_ size max
            split
      | false ↦ some []
    ]
