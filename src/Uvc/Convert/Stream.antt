-- ===== src/Uvc/Convert/Stream.antt =====
-- For an even width `yuyv2rgb` converts the frame group by group, from its start to its end.
use mathlib.Core.List.{append_assoc}
use linux_tutorial.Prelude.{
  ℕ, zero, suc, ◌+◌, ◌-◌, ◌*◌, ◌^◌, ◌≤◌, ◌<◌, ◌≡◌, refl, sym, ap, ◌∙◌, some, List, [], ◌∷◌, ◌++◌,
  arith, length, length-append, replicate, lt→ltb, le→ltb,
}
use linux_tutorial.Uvc.Memory.{load-append, store-append}
use linux_tutorial.Uvc.Pixel.{red_sum, green_sum, blue_sum, channel}
use linux_tutorial.Uvc.Convert.{convert_pair, columns, rows, yuyv2rgb}

-- Two pixels of a YUYV frame.
pub record Group : Type 0 where
  pub y0 : ℕ
  pub u : ℕ
  pub y1 : ℕ
  pub v : ℕ

-- A frame as the camera lays it out.
abbrev pub frame : List Group → List ℕ
frame [] = []
frame (g ∷ gs) = g.y0 ∷ g.u ∷ g.y1 ∷ g.v ∷ frame gs

abbrev pub pixel : ℕ → ℕ → ℕ → List ℕ → List ℕ
pixel y u v rest =
    channel (red_sum y u v) ∷ channel (green_sum y u v) ∷ channel (blue_sum y u v) ∷ rest

-- The image of a frame: both pixels of a group share its U and V.
abbrev pub image : List Group → List ℕ
image [] = []
image (g ∷ gs) = pixel g.y0 g.u g.v (pixel g.y1 g.u g.v (image gs))

convert_pair-append :
    (pre post done : List ℕ) (g : Group) (a b c d e f : ℕ) (rest : List ℕ) (index : ℕ)
    → length pre ≡ index * 2
    → length done ≡ index * 3
    → convert_pair
        (pre ++ (g.y0 ∷ g.u ∷ g.y1 ∷ g.v ∷ post))
        index
        (done ++ (a ∷ b ∷ c ∷ d ∷ e ∷ f ∷ rest))
      ≡ some (done ++ pixel g.y0 g.u g.v (pixel g.y1 g.u g.v rest))
unfolding convert_pair
convert_pair-append pre post done g a b c d e f rest index hp hd =
    let group : List ℕ = g.y0 ∷ g.u ∷ g.y1 ∷ g.v ∷ post in
    let r0 : ℕ = channel (red_sum g.y0 g.u g.v) in
    let g0 : ℕ = channel (green_sum g.y0 g.u g.v) in
    let b0 : ℕ = channel (blue_sum g.y0 g.u g.v) in
    let r1 : ℕ = channel (red_sum g.y1 g.u g.v) in
    let g1 : ℕ = channel (green_sum g.y1 g.u g.v) in
    let b1 : ℕ = channel (blue_sum g.y1 g.u g.v) in
    rw
      (
        load-append pre group (index * 2 + 0) 0 (omega arith),
        load-append pre group (index * 2 + 1) 1 (omega arith),
        load-append pre group (index * 2 + 2) 2 (omega arith),
        load-append pre group (index * 2 + 3) 3 (omega arith),
        store-append done (a ∷ b ∷ c ∷ d ∷ e ∷ f ∷ rest) (r0 ∷ b ∷ c ∷ d ∷ e ∷ f ∷ rest)
            (index * 3 + 0) 0 r0 (omega arith) refl,
        store-append done (r0 ∷ b ∷ c ∷ d ∷ e ∷ f ∷ rest) (r0 ∷ g0 ∷ c ∷ d ∷ e ∷ f ∷ rest)
            (index * 3 + 1) 1 g0 (omega arith) refl,
        store-append done (r0 ∷ g0 ∷ c ∷ d ∷ e ∷ f ∷ rest) (r0 ∷ g0 ∷ b0 ∷ d ∷ e ∷ f ∷ rest)
            (index * 3 + 2) 2 b0 (omega arith) refl,
        store-append done (r0 ∷ g0 ∷ b0 ∷ d ∷ e ∷ f ∷ rest) (r0 ∷ g0 ∷ b0 ∷ r1 ∷ e ∷ f ∷ rest)
            (index * 3 + 3) 3 r1 (omega arith) refl,
        store-append done (r0 ∷ g0 ∷ b0 ∷ r1 ∷ e ∷ f ∷ rest) (r0 ∷ g0 ∷ b0 ∷ r1 ∷ g1 ∷ f ∷ rest)
            (index * 3 + 4) 4 g1 (omega arith) refl,
      )
      (store-append done (r0 ∷ g0 ∷ b0 ∷ r1 ∷ g1 ∷ f ∷ rest) (r0 ∷ g0 ∷ b0 ∷ r1 ∷ g1 ∷ b1 ∷ rest)
        (index * 3 + 5) 5 b1 (omega arith) refl)

-- The part of the image that is still to be written.
abbrev blank : List Group → List ℕ
blank [] = []
blank (g ∷ gs) = 0 ∷ 0 ∷ 0 ∷ 0 ∷ 0 ∷ 0 ∷ blank gs

-- One group further: its bytes go over to what has been read, its pixels to what has been written.
columns-append :
    (gs : List Group) (pre post done rest : List ℕ) (fuel width i j : ℕ)
    → length pre ≡ (i * width + j) * 2
    → length done ≡ (i * width + j) * 3
    → j + 2 * length gs ≡ width
    → length gs < fuel
    → columns fuel (pre ++ (frame gs ++ post)) width i j (done ++ (blank gs ++ rest))
      ≡ some (done ++ (image gs ++ rest))
unfolding columns
columns-append gs pre post done rest zero width i j hp hd he hf = absurd (omega arith)
columns-append [] pre post done rest (suc f) width i j hp hd he hf =
    rw (le→ltb j width (omega arith), columns) refl
columns-append (g ∷ gs) pre post done rest (suc f) width i j hp hd he hf =
    let read : List ℕ = g.y0 ∷ g.u ∷ g.y1 ∷ g.v ∷ [] in
    let written : List ℕ = pixel g.y0 g.u g.v (pixel g.y1 g.u g.v []) in
    rw
      (
        lt→ltb j width (omega arith),
        columns,
        convert_pair-append pre (frame gs ++ post) done g 0 0 0 0 0 0 (blank gs ++ rest)
            (i * width + j) hp hd,
        ← append_assoc pre read (frame gs ++ post),
        ← append_assoc done written (blank gs ++ rest),
        ← append_assoc done written (image gs ++ rest),
      )
      (columns-append gs (pre ++ read) post (done ++ written) rest f width i (j + 2)
        (omega (arith, length-append pre read)) (omega (arith, length-append done written))
        (omega arith) (omega arith))

split :
    (n : ℕ) (gs : List Group) → n ≤ length gs → (a b : List Group) × (a ++ b ≡ gs) × (length a ≡ n)
split zero gs h = ([], gs, refl, refl)
split (suc n) [] h = absurd (omega arith)
split (suc n) (g ∷ gs) h =
    let (a, b, e, l) = split n gs (omega arith) in (g ∷ a, b, ap (λ xs. g ∷ xs) e, ap suc l)

frame-append : (a b : List Group) → frame (a ++ b) ≡ frame a ++ frame b
frame-append [] b = refl
frame-append (g ∷ a) b = rw (frame-append a b)

image-append : (a b : List Group) → image (a ++ b) ≡ image a ++ image b
image-append [] b = refl
image-append (g ∷ a) b = rw (image-append a b)

blank-append : (a b : List Group) → blank (a ++ b) ≡ blank a ++ blank b
blank-append [] b = refl
blank-append (g ∷ a) b = rw (blank-append a b)

pub length-frame : (gs : List Group) → length (frame gs) ≡ 4 * length gs
length-frame [] = refl
length-frame (g ∷ gs) = omega (arith, length-frame gs)

pub length-image : (gs : List Group) → length (image gs) ≡ 6 * length gs
length-image [] = refl
length-image (g ∷ gs) = omega (arith, length-image gs)

blank-replicate : (gs : List Group) (n : ℕ) → n ≡ 6 * length gs → blank gs ≡ replicate n 0
blank-replicate [] n e = let z : n ≡ 0 = omega arith in rw z refl
blank-replicate (g ∷ gs) n e =
    let s : n ≡ suc (suc (suc (suc (suc (suc (n - 6)))))) = omega arith in
    ap (λ xs. 0 ∷ 0 ∷ 0 ∷ 0 ∷ 0 ∷ 0 ∷ xs) (blank-replicate gs (n - 6) (omega arith))
    ∙ sym (ap (λ m. replicate m 0) s)

rows-append :
    (k half i : ℕ) (gs : List Group) (pre done : List ℕ)
    → length pre ≡ i * (2 * half) * 2
    → length done ≡ i * (2 * half) * 3
    → length gs ≡ half * k
    → rows k (pre ++ frame gs) (2 * half) i (done ++ blank gs) ≡ some (done ++ image gs)
unfolding rows
rows-append zero half i [] pre done hp hd he = refl
rows-append zero half i (g ∷ gs) pre done hp hd he = absurd (omega arith)
rows-append (suc k) half i gs pre done hp hd he =
    let (a, b, e, l) = split half gs (omega arith) in
    rw (← e) (
      rw
        (
          frame-append a b,
          blank-append a b,
          image-append a b,
          columns-append a pre (frame b) done (blank b) (2 * half + 1) (2 * half) i 0 (omega arith)
              (omega arith) (omega arith) (omega arith),
          ← append_assoc pre (frame a) (frame b),
          ← append_assoc done (image a) (blank b),
          ← append_assoc done (image a) (image b),
        )
        (rows-append k half (i + 1) b (pre ++ frame a) (done ++ image a)
          (omega (arith, length-append pre (frame a), length-frame a))
          (omega (arith, length-append done (image a), length-image a))
          (omega (arith, ap length e, length-append a b))))

-- A frame of even width whose image fits calloc's 32-bit size is converted without a fault into
-- exactly its pixels in order.
pub yuyv2rgb-image :
    (gs : List Group) (half height : ℕ)
    → length gs ≡ half * height
    → 2 * half * height * 3 < 2 ^ 32
    → yuyv2rgb (frame gs) (2 * half) height ≡ some (image gs)
unfolding yuyv2rgb
yuyv2rgb-image gs half height e fits =
    ap (rows height (frame gs) (2 * half) 0) (sym (blank-replicate gs _ (omega arith)))
    ∙ rows-append height half 0 gs [] [] (omega arith) (omega arith) e
