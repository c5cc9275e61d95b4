-- ===== src/Uvc/Jpeg/Rows.antt =====
-- The bytes that `jpeg` copies into one row.
use linux_tutorial.Prelude.{
  ◌++◌, sym, ap, ◌∙◌, drop-drop, take-add, length-drop, ℕ, zero, suc, ◌+◌, ◌*◌, ◌≤◌, ◌≡◌, refl,
  some, List, ◌∷◌, arith, length, get_elem?, take, drop, get_elem?-drop,
}
use linux_tutorial.Uvc.Jpeg.{copy_pixels}

-- The next three bytes.
drop_three :
    (xs : List ℕ) (n : ℕ)
    → n + 3 ≤ length xs
    → (r g b : ℕ) × (get_elem? xs (n + 0) ≡ some r)
      × (get_elem? xs (n + 1) ≡ some g)
      × (get_elem? xs (n + 2) ≡ some b)
      × (drop n xs ≡ r ∷ g ∷ b ∷ drop (n + 3) xs)
drop_three xs n h =
    let (r, at_r, next_r) = get_elem?-drop xs n (omega arith) in
    let (g, at_g, next_g) = get_elem?-drop xs (suc n) (omega arith) in
    let (b, at_b, next_b) = get_elem?-drop xs (suc (suc n)) (omega arith) in
    let zeroth : n + 0 ≡ n = omega arith in
    let first : n + 1 ≡ suc n = omega arith in
    let second : n + 2 ≡ suc (suc n) = omega arith in
    let third : n + 3 ≡ suc (suc (suc n)) = omega arith in
    (
      r,
      g,
      b,
      rw zeroth at_r,
      rw first at_g,
      rw second at_b,
      rw (next_r, next_g, next_b, third) refl,
    )

-- The loop over `j` copies the row's bytes.
pub copy_pixels_lem :
    (k j : ℕ) (rgb : List ℕ) (w i : ℕ)
    → (i * w + j + k) * 3 ≤ length rgb
    → copy_pixels k j rgb w i ≡ some (take (k * 3) (drop ((i * w + j) * 3) rgb))
unfolding copy_pixels
copy_pixels_lem zero j rgb w i h = refl
copy_pixels_lem (suc k) j rgb w i h =
    let (r, g, b, at_r, at_g, at_b, next) = drop_three rgb ((i * w + j) * 3) (omega arith) in
    let step : (i * w + (j + 1)) * 3 ≡ (i * w + j) * 3 + 3 = omega arith in
    let more : suc k * 3 ≡ suc (suc (suc (k * 3))) = omega arith in
    let rest = copy_pixels_lem k (j + 1) rgb w i (omega arith) in
    rw (at_r, at_g, at_b, rest, step, more, next) refl

-- One row, and `k` more.
pub rows_split :
    (k i w : ℕ) (rgb : List ℕ)
    → i * w * 3 + w * 3 ≤ length rgb
    → take (w * 3) (drop (i * w * 3) rgb) ++ take (k * (w * 3)) (drop ((i + 1) * w * 3) rgb)
      ≡ take (suc k * (w * 3)) (drop (i * w * 3) rgb)
rows_split k i w rgb h =
    let further : (i + 1) * w * 3 ≡ i * w * 3 + w * 3 = omega arith in
    let more : suc k * (w * 3) ≡ w * 3 + k * (w * 3) = omega arith in
    let enough : w * 3 ≤ length (drop (i * w * 3) rgb) =
      omega (arith, length-drop (i * w * 3) rgb (omega arith)) in
    rw (more, further)
      (sym (
        take-add (w * 3) (k * (w * 3)) (drop (i * w * 3) rgb) enough
        ∙ ap (λ ys. take (w * 3) (drop (i * w * 3) rgb) ++ take (k * (w * 3)) ys)
            (drop-drop (i * w * 3) (w * 3) rgb)))
