-- ===== src/Log/Dump.antt =====
-- What `wdm_log_data` of include/log.h shows of a block.
use linux_tutorial.Prelude.{
  ℕ, zero, suc, ◌+◌, ◌<◌, ◌≤◌, false, some, List, [], ◌∷◌, ◌++◌, ◌==◌, ◌≡◌, ◌≢◌, refl, arith,
  get_elem?, length, get_elem?-drop, take, drop, ◌∙◌, leb, if◌then◌else◌,
}
use linux_tutorial.Prelude.Int.{ℤ, pos, negsuc, pos_part, ltb_ℤ}
use linux_tutorial.Prelude.Text.{codes}
use linux_tutorial.Log.{
  color, green, place, Piece, heading, reset, byte, limit, magnitude, round, dump, wdm_log_data,
}

-- The bytes that are shown.
abbrev pub shown : List Piece → List ℕ
shown [] = []
shown (byte c ∷ ps) = c ∷ shown ps
shown (_ ∷ ps) = shown ps

shown-round : (split i c : ℕ) (rest : List Piece) → shown (round split i c rest) ≡ c ∷ shown rest
shown-round split i c rest = ground arith

dump-suc :
    (k i d c : ℕ) (xs : List ℕ) (rest : List Piece)
    → get_elem? xs i ≡ some c
    → dump k (i + 1) xs (suc d) ≡ some rest
    → dump (suc k) i xs (suc d) ≡ some (round (suc d) i c rest)
unfolding dump
dump-suc k i d c xs rest found done =
    let divides : (suc d == 0) ≡ false = ground arith in rw (dump, divides, found, done) refl

dump-shows :
    (k i d : ℕ) (xs : List ℕ)
    → i + k ≤ length xs
    → (out : List Piece) × (dump k i xs (suc d) ≡ some out) × (shown out ≡ take k (drop i xs))
unfolding dump
dump-shows zero i d xs h = (reset ∷ [], refl, refl)
dump-shows (suc k) i d xs h =
    let (c, found, next) = get_elem?-drop xs i (omega arith) in
    let (rest, done, same) = dump-shows k (i + 1) d xs (omega arith) in
    let step : i + 1 ≡ suc i = omega arith in
    (
      round (suc d) i c rest,
      dump-suc k i d c xs rest found done,
      shown-round (suc d) i c rest ∙ rw (next, same, step) refl,
    )

limit-le : (size n : ℕ) (max : ℤ) → size ≤ n → 0 + pos_part (limit (pos size) max) ≤ n
limit-le size n (pos m) h = ground (arith, h)
limit-le size n (negsuc m) h = ground (arith, h)

ltb_ℤ_one : (size : ℕ) → 0 < size → ltb_ℤ (pos size) (pos 1) ≡ false
ltb_ℤ_one size h = ground (arith, h)

-- How many bytes of a block of `size` are to be shown.
abbrev pub wanted : ℕ → ℤ → ℕ
wanted size (pos zero) = size
wanted size (pos (suc m)) = if leb (suc m) size then suc m else size
wanted size (negsuc m) = size

limit-wanted : (size : ℕ) (max : ℤ) → 0 < size → pos_part (limit (pos size) max) ≡ wanted size max
limit-wanted size (pos zero) h = ground (arith, h)
limit-wanted size (pos (suc m)) h = ground (arith, h)
limit-wanted size (negsuc m) h = ground (arith, h)

-- The heading.
abbrev pub opening : List ℕ → List ℕ → ℕ → List ℕ → List ℕ
opening file function number str =
    color green ++ (codes "[FATAL]" ++ place file function number str)

headed :
    (file function : List ℕ) (number : ℕ) (str xs : List ℕ) (size : ℕ) (max split : ℤ)
    (out : List Piece)
    → ltb_ℤ (pos size) (pos 1) ≡ false
    → dump (pos_part (limit (pos size) max)) 0 xs (magnitude split) ≡ some out
    → wdm_log_data file function number str (some xs) (pos size) max split
      ≡ some (heading (opening file function number str) ∷ out)
unfolding wdm_log_data
headed file function number str xs size max split out some_left done =
    rw (wdm_log_data, some_left, done) refl

-- Of a block of `size` bytes the dump shows the first `max`, or all where `max` is not between 1 and
-- `size`; it reads nothing past them, and divides by 0 in no round, if `split` is not 0.
pub wdm_log_data-shows :
    (file function : List ℕ) (number : ℕ) (str xs : List ℕ) (size : ℕ) (max split : ℤ)
    → 0 < size
    → size ≤ length xs
    → magnitude split ≢ 0
    → (out : List Piece) × (wdm_log_data file function number str (some xs) (pos size) max split
        ≡ some out)
      × (shown out ≡ take (wanted size max) xs)
unfolding wdm_log_data
wdm_log_data-shows file function number str xs size max (pos zero) some_left enough divides =
    absurd (divides refl)
wdm_log_data-shows file function number str xs size max (pos (suc d)) some_left enough divides =
    let (out, done, same) =
      dump-shows (pos_part (limit (pos size) max)) 0 d xs (limit-le size (length xs) max enough) in
    (
      heading (opening file function number str) ∷ out,
      headed file function number str xs size max (pos (suc d)) out (ltb_ℤ_one size some_left) done,
      same ∙ rw (limit-wanted size max some_left) refl,
    )
wdm_log_data-shows file function number str xs size max (negsuc d) some_left enough divides =
    let (out, done, same) =
      dump-shows (pos_part (limit (pos size) max)) 0 d xs (limit-le size (length xs) max enough) in
    (
      heading (opening file function number str) ∷ out,
      headed file function number str xs size max (negsuc d) out (ltb_ℤ_one size some_left) done,
      same ∙ rw (limit-wanted size max some_left) refl,
    )
