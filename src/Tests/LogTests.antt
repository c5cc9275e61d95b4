-- ===== src/Tests/LogTests.antt =====
-- The dump of include/log.h at concrete inputs.
use linux_tutorial.Prelude.{◌≡◌, List, [], ◌∷◌, some, refl, arith}
use linux_tutorial.Prelude.Int.{pos}
use linux_tutorial.Prelude.{ℕ, take}
use linux_tutorial.Prelude.Text.{codes}
use linux_tutorial.Platform.{warn}
use linux_tutorial.Log.Reading.{read_line, read_line-line}
use linux_tutorial.Log.{line, Piece, wdm_log_data}
use linux_tutorial.Log.Dump.{wanted, shown, wdm_log_data-shows}

abbrev block : List ℕ
block = 1 ∷ 2 ∷ 255 ∷ 4 ∷ []

wdm_log_data-shows_example :
    (out : List Piece) × (wdm_log_data
        (codes "main.c")
        (codes "main")
        7
        (codes "block")
        (some block)
        (pos 4)
        (pos 3)
        (pos 2)
      ≡ some out)
    × (shown out ≡ take (wanted 4 (pos 3)) block)
wdm_log_data-shows_example =
    wdm_log_data-shows (codes "main.c") (codes "main") 7 (codes "block") block 4 (pos 3) (pos 2)
      (omega arith) (omega arith) (omega arith)

shows_three : take (wanted 4 (pos 3)) block ≡ 1 ∷ 2 ∷ 255 ∷ []
shows_three = refl

read_line-line_example :
    read_line (line warn (some 4) (codes "src/net/main.c") (codes "main") 104 (codes "a ] b"))
    ≡ some (record {
      level = warn;
      file = codes "net/main.c";
      function = codes "main";
      number = 104;
      text = codes "a ] b";
    })
read_line-line_example =
    read_line-line warn (some 4) (codes "src/net/main.c") (codes "main") 104 (codes "a ] b")
      (omega arith) (omega arith) (omega arith)
