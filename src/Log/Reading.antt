-- ===== src/Log/Reading.antt =====
-- Reading a line of include/log.h back.
use linux_tutorial.Prelude.{
  ℕ, ◌-◌, ◌^◌, ◌<◌, ◌≡◌, ◌≢◌, refl, ap, ◌∙◌, false, Option, none, some, List, [], ◌∷◌, ◌++◌, arith,
  ◌==◌, if◌then◌else◌, length, length-append, take, drop, take-append,
}
use linux_tutorial.Prelude.Text.{codes}
use linux_tutorial.Prelude.Decimal.{decimal, number, number-decimal, All, IsDigit, decimal-IsDigit}
use linux_tutorial.Platform.{Level, trace, debug, info, warn, error, fatal}
use linux_tutorial.Log.{level_color, tag, reset_color, source_root_length, place, line}

-- What a line tells.
pub record Entry : Type 0 where
  pub level : Level
  pub file : List ℕ
  pub function : List ℕ
  pub number : ℕ
  pub text : List ℕ

-- What follows `p`, where the text begins with it.
abbrev after_prefix : List ℕ → List ℕ → Option (List ℕ)
after_prefix [] xs = some xs
after_prefix (c ∷ p) [] = none
after_prefix (c ∷ p) (x ∷ xs) = if c == x then after_prefix p xs else none

-- The level whose colour and tag the text begins with, and the rest.
abbrev level_from : List Level → List ℕ → Option (Level × List ℕ)
level_from [] xs = none
level_from (l ∷ ls) xs = elim (after_prefix (level_color l ++ codes (tag l)) xs) [
  | some rest ↦ some (l, rest)
  | none ↦ level_from ls xs
]

-- The text before the first ']', and what follows it.
abbrev to_bracket : List ℕ → List ℕ × List ℕ
to_bracket [] = ([], [])
to_bracket (c ∷ cs) = if c == b']' then ([], cs) else (c ∷ (to_bracket cs).0, (to_bracket cs).1)

-- After the level: "[file][function][number]:text", a line's end and RESET.
abbrev entry_of : Level → List ℕ → Entry
entry_of l xs =
    let (file, rest) = to_bracket (drop 1 xs) in
    let (function, rest') = to_bracket (drop 1 rest) in
    let (digits, rest'') = to_bracket (drop 1 rest') in
    record {
      level = l;
      file = file;
      function = function;
      number = number 0 digits;
      text = take (length rest'' - 6) (drop 1 rest'');
    }

abbrev entry_from : Option (Level × List ℕ) → Option Entry
entry_from none = none
entry_from (some (l, rest)) = some (entry_of l rest)

abbrev pub read_line : List ℕ → Option Entry
read_line xs = entry_from (level_from (trace ∷ debug ∷ info ∷ warn ∷ error ∷ fatal ∷ []) xs)

abbrev pub NoBracket : List ℕ → Type 0
NoBracket = All (λ c. c ≢ b']')

to_bracket-append :
    (xs rest : List ℕ) → NoBracket xs → to_bracket (xs ++ (b']' ∷ rest)) ≡ (xs, rest)
to_bracket-append [] rest h = refl
to_bracket-append (c ∷ xs) rest h =
    let other : (c == b']') ≡ false = ground (arith, h.0) in
    rw (other, to_bracket-append xs rest h.1) refl

digits-NoBracket : (ds : List ℕ) → All IsDigit ds → NoBracket ds
digits-NoBracket [] h = tt
digits-NoBracket (d ∷ ds) h = (λ same. absurd (omega (arith, same)), digits-NoBracket ds h.1)

level_from-tag :
    (l : Level) (rest : List ℕ)
    → level_from
        (trace ∷ debug ∷ info ∷ warn ∷ error ∷ fatal ∷ [])
        (level_color l ++ (codes (tag l) ++ rest))
      ≡ some (l, rest)
level_from-tag trace rest = refl
level_from-tag debug rest = refl
level_from-tag info rest = refl
level_from-tag warn rest = refl
level_from-tag error rest = refl
level_from-tag fatal rest = refl

entry_of-place :
    (l : Level) (file function : List ℕ) (n : ℕ) (text : List ℕ)
    → NoBracket file
    → NoBracket function
    → n < 2 ^ 31
    → entry_of l (place file function n (text ++ (10 ∷ reset_color)))
      ≡ record { level = l; file = file; function = function; number = n; text = text }
entry_of-place l file function n text no_file no_function small =
    let shorter : length {A = ℕ} (b':' ∷ (text ++ (10 ∷ reset_color))) - 6 ≡ length text =
      omega (arith, length-append text (10 ∷ reset_color)) in
    rw
      (
        to_bracket-append file _ no_file,
        to_bracket-append function _ no_function,
        to_bracket-append (decimal n) _ (digits-NoBracket (decimal n) (decimal-IsDigit n)),
        number-decimal n small,
        take-append text (10 ∷ reset_color) _ shorter,
      )
      refl

-- A line that is printed can be read back: its level, its file from the source root on, its function,
-- its line number (an int) and its text, whatever the text, where neither name has a ']' in it.
pub read_line-line :
    (l : Level) (root : Option ℕ) (file function : List ℕ) (n : ℕ) (text : List ℕ)
    → NoBracket (drop (source_root_length root) file)
    → NoBracket function
    → n < 2 ^ 31
    → read_line (line l root file function n text)
      ≡ some (record {
        level = l;
        file = drop (source_root_length root) file;
        function = function;
        number = n;
        text = text;
      })
read_line-line l root file function n text no_file no_function small =
    ap entry_from (
      level_from-tag l
        (place (drop (source_root_length root) file) function n (text ++ (10 ∷ reset_color))))
    ∙ ap some (
        entry_of-place l (drop (source_root_length root) file) function n text no_file no_function
          small)
