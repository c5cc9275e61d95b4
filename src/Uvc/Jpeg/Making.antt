-- ===== src/Uvc/Jpeg/Making.antt =====
-- The rows that `make_rows` makes.
use linux_tutorial.Prelude.{
  ℕ, zero, suc, ◌+◌, ◌*◌, ◌%◌, ◌^◌, ◌<◌, ◌≤◌, ◌≡◌, refl, sym, ap, ◌∙◌, Option, none, some, List, [],
  ◌∷◌, ◌++◌, arith, length, take, drop, length-take, length-drop, length-replicate, replicate,
}
use linux_tutorial.Prog.{ret}
use linux_tutorial.Prog.Logic.{Ensures, Ensures-bind}
use linux_tutorial.Uvc.Jpeg.{copy_pixels, make_rows}
use linux_tutorial.Uvc.Jpeg.Rows.{copy_pixels_lem, rows_split}
use linux_tutorial.Uvc.Jpeg.Pictures.{Picture, pictures}
use linux_tutorial.Uvc.Blocks.{update, Extends, updated}
use linux_tutorial.Uvc.Jpeg.Gathering.{OfLength, join, filled}

-- What `make_rows` answers: `k` rows, new and beside what was there, with `bytes` in them.
abbrev pub Made : ℕ → Picture → ℕ → List ℕ → Picture → Option (List ℕ) → Type 0
Made size s k bytes t r =
    (ps : List ℕ) × (rs : List (List ℕ)) × (r ≡ some ps)
    × (length ps ≡ k)
    × Extends (OfLength size) s.content t.content ps rs
    × (join rs ≡ bytes)
    × (t ≡ record s { content = t.content })

more_rows :
    (size : ℕ) (s : Picture) (p : ℕ) (row : List ℕ) (k : ℕ) (bytes : List ℕ) (t : Picture)
    (r : Option (List ℕ))
    → s.content p ≡ none
    → length row ≡ size
    → Made size (record s { content = update s.content p (some row) }) k bytes t r
    → Ensures pictures t
        (elim r [ none ↦ ret none | some rows ↦ ret (some (p ∷ rows)) ])
        (Made size s (suc k) (row ++ bytes))
more_rows size s p row k bytes t none new long (ps, rs, found, count, there, joined, rest) = cc
more_rows size s p row k bytes t (some a) new long (ps, rs, found, count, there, joined, rest) =
    let same : some (p ∷ a) ≡ some (p ∷ ps) = cc in
    (p ∷ ps, row ∷ rs, same, ap suc count, (new, long, there), ap (λ b. row ++ b) joined, rest)

-- The loop over `i` makes the rows from `i` on.
pub make_rows_lem :
    (k i : ℕ) (rgb : List ℕ) (w : ℕ) (s : Picture)
    → (i * w + k * w) * 3 ≤ length rgb
    → w * 3 < 2 ^ 32
    → Ensures pictures s
        (make_rows k i rgb w)
        (Made (w * 3) s k (take (k * (w * 3)) (drop (i * w * 3) rgb)))
unfolding make_rows
make_rows_lem zero i rgb w s h small =
    let none_left : 0 * (w * 3) ≡ 0 = omega arith in
    ([], [], refl, refl, refl, rw none_left refl, refl)
make_rows_lem (suc k) i rgb w s h small =
    let start : (i * w + 0) * 3 ≡ i * w * 3 = omega arith in
    let row : List ℕ = take (w * 3) (drop (i * w * 3) rgb) in
    let whole : i * w * 3 ≤ length rgb = omega arith in
    let left : i * w * 3 + w * 3 ≤ length rgb = omega arith in
    let size : w * 3 % 2 ^ 32 ≡ w * 3 = omega arith in
    let copied : copy_pixels w 0 rgb w i ≡ some row =
      rw (sym start) (copy_pixels_lem w 0 rgb w i (omega arith)) in
    let long : length row ≡ w * 3 =
      length-take (w * 3) (drop (i * w * 3) rgb)
        (omega (arith, length-drop (i * w * 3) rgb whole)) in
    let zeros : List ℕ = replicate (w * 3) 0 in
    let as_long : length row ≡ length zeros = long ∙ sym (length-replicate {A = ℕ} (w * 3) 0) in
    let split = rows_split k i w rgb left in
    (
      tt,
      λ p new. rw copied (
          rw size (
            rw (updated s.content p (some zeros)) (omega (arith, as_long)),
            λ _ _. rw (filled s.content p row zeros as_long) (
                Ensures-bind pictures (record s { content = update s.content p (some row) })
                  (make_rows k (i + 1) rgb w) _
                  (Made (w * 3) (record s { content = update s.content p (some row) }) k
                    (take (k * (w * 3)) (drop ((i + 1) * w * 3) rgb)))
                  _
                  (make_rows_lem k (i + 1) rgb w
                    (record s { content = update s.content p (some row) }) (omega arith) small)
                  λ t r made. rw (sym split) (
                    more_rows (w * 3) s p row k (take (k * (w * 3)) (drop ((i + 1) * w * 3) rgb)) t
                      r new long made)),
          )),
    )
