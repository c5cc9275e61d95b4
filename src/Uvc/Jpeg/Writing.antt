-- ===== src/Uvc/Jpeg/Writing.antt =====
-- That `jpeg` writes the image, and frees what it allocates.
use linux_tutorial.Prelude.{
  ℕ, ◌+◌, ◌*◌, ◌^◌, ◌<◌, ◌≡◌, refl, sym, ap, ◌∙◌, Option, none, some, List, [], ◌∷◌, arith, length,
  take, drop, take_all, replicate,
}
use linux_tutorial.Prog.{ret, ◌>>◌}
use linux_tutorial.Prog.Logic.{Ensures, Ensures-bind}
use linux_tutorial.Uvc.Calls.{alloc, free, perform}
use linux_tutorial.Uvc.Jpeg.{make_rows, free_rows, compress, jpeg}
use linux_tutorial.Uvc.Jpeg.Pictures.{Picture, gather, pictures, absent}
use linux_tutorial.Uvc.Blocks.{
  update, Extends, update-update, update-none, Extends-free, block_there, updated,
}
use linux_tutorial.Uvc.Jpeg.Gathering.{OfLength, gather_rows}
use linux_tutorial.Uvc.Jpeg.Making.{Made, make_rows_lem}

-- `free_rows` frees the rows, and nothing else.
free_rows_lem :
    (size : ℕ) (c : ℕ → Option (List ℕ)) (s : Picture) (ps : List ℕ) (rs : List (List ℕ))
    → Extends (OfLength size) c s.content ps rs
    → Ensures pictures s (free_rows ps) (λ t _. t ≡ record s { content = c })
unfolding free_rows
free_rows_lem size c s [] [] same = ap (λ f. record s { content = f }) same
free_rows_lem size c s [] (r ∷ rs) h = cc
free_rows_lem size c s (p ∷ ps) [] h = cc
free_rows_lem size c s (p ∷ ps) (r ∷ rs) (new, long, more) = (
  rw (block_there (OfLength size) c s.content p ps r rs more) tt,
  λ _ _.
      free_rows_lem size c (record s { content = update s.content p none }) ps rs
        (rw (sym (update-update c p (some r) none ∙ update-none c p new)) (
          Extends-free (OfLength size) (update c p (some r)) s.content ps rs p r more
            (ground arith))),
)

-- libjpeg is given the rows, in its order.
compress_lem :
    (dest : ℕ) (ps : List ℕ) (w h q : ℕ) (s : Picture) (out : List ℕ)
    → s.stage ≡ absent
    → gather s.content (w * 3) h ps ≡ some out
    → Ensures pictures s
        (compress dest ps w h q)
        (λ t _. t ≡ record s { stage = absent; width = w; height = h; lines = 0 + h; output = out })
unfolding compress
compress_lem dest ps w h q s out new found = (
  new,
  λ _ _. (
    refl,
    λ _ _. (
      refl,
      λ _ _. (
        refl,
        λ _ _. (
          refl,
          λ _ _.
              rw found
                ((refl, omega arith, tt), λ _ _. ((refl, omega arith), λ _ _. (refl, λ _ _. refl))),
        ),
      ),
    ),
  ),
)

-- The end of `jpeg`, from the rows on: `before` holds the picture as it was, and `zeros` the block of
-- the pointers.
after_rows :
    (dest image : ℕ) (w h q : ℕ) (before : Picture) (zeros bytes : List ℕ) (t : Picture)
    (r : Option (List ℕ))
    → before.stage ≡ absent
    → before.content image ≡ none
    → Made
        (w * 3)
        (record before { content = update before.content image (some zeros) })
        h
        bytes
        t
        r
    → Ensures pictures t
        (elim r [
          | none ↦ ret none
          | some rows ↦ do
            compress dest rows w h q
            free_rows rows
            perform (free image)
            ret (some tt)
        ])
        (λ u x.
          (x ≡ some tt)
          × (u.output ≡ bytes)
          × (u.width ≡ w)
          × (u.height ≡ h)
          × (u.content ≡ before.content)
          × (u.stage ≡ absent))
after_rows dest image w h q before zeros bytes t none new fresh
      (ps, rs, found, count, there, joined, rest) =
    cc
after_rows dest image w h q before zeros bytes t (some a) new fresh
      (ps, rs, found, count, there, joined, rest) =
    let same : ps ≡ a = cc in
    let c1 : ℕ → Option (List ℕ) = update before.content image (some zeros) in
    let held : Extends (OfLength (w * 3)) c1 t.content a rs = rw (sym same) there in
    let gathered : gather t.content (w * 3) h a ≡ some bytes =
      rw (sym joined, sym count, sym same) (gather_rows (w * 3) c1 t.content ps rs there) in
    let u : Picture = record t {
      stage = absent;
      width = w;
      height = h;
      lines = 0 + h;
      output = bytes;
    } in
    Ensures-bind pictures t (compress dest a w h q) _ (λ v _. v ≡ u) _
      (compress_lem dest a w h q t bytes (ap Picture.stage rest ∙ new) gathered)
      λ v _ at. rw at (
        Ensures-bind pictures u (free_rows a) _ (λ x _. x ≡ record u { content = c1 }) _
          (free_rows_lem (w * 3) c1 u a rs held)
          λ x _ at_x. rw at_x (
            rw (updated before.content image (some zeros)) tt,
            λ _ _. (
              refl,
              refl,
              refl,
              refl,
              update-update before.content image (some zeros) none
                  ∙ update-none before.content image fresh,
              refl,
            ),
          ))

-- `jpeg` gives libjpeg the image row by row, with its width and height, and frees what it allocates.
pub jpeg-writes :
    (dest : ℕ) (rgb : List ℕ) (w h q : ℕ) (s : Picture)
    → s.stage ≡ absent
    → length rgb ≡ w * h * 3
    → w * 3 < 2 ^ 32
    → Ensures pictures s (jpeg dest rgb w h q) (λ t r.
      (r ≡ some tt)
      × (t.output ≡ rgb)
      × (t.width ≡ w)
      × (t.height ≡ h)
      × (t.content ≡ s.content)
      × (t.stage ≡ absent))
unfolding jpeg
jpeg-writes dest rgb w h q s new size small =
    let start : 0 * w * 3 ≡ 0 = omega arith in
    let whole : take (h * (w * 3)) (drop (0 * w * 3) rgb) ≡ rgb =
      rw start (take_all (h * (w * 3)) rgb (omega arith)) in
    (
      tt,
      λ image fresh.
          let s1 : Picture = pictures.next s (alloc "JSAMPROW" h) image in
          Ensures-bind pictures s1 (make_rows h 0 rgb w) _
            (Made (w * 3) s1 h (take (h * (w * 3)) (drop (0 * w * 3) rgb))) _
            (make_rows_lem h 0 rgb w s1 (omega arith) small)
            λ t r made.
              after_rows dest image w h q s (replicate h 0) rgb t r new fresh (rw (sym whole) made),
    )
