-- ===== src/Uvc/Jpeg/Gathering.antt =====
-- Rows that are filled one by one and gathered in their order.
use mathlib.Core.List.{append-nil}
use linux_tutorial.Prelude.{
  ℕ, ◌≡◌, refl, true, Option, some, List, [], ◌∷◌, ◌++◌, arith, length, take_all, drop_all, leb,
}
use linux_tutorial.Uvc.Blocks.{update, update-update, updated, Extends, block_there}
use linux_tutorial.Uvc.Jpeg.Pictures.{gather, over, bytes_of}

abbrev pub OfLength : ℕ → List ℕ → Type 0
OfLength n r = length r ≡ n

abbrev pub join : List (List ℕ) → List ℕ
join [] = []
join (r ∷ rs) = r ++ join rs

pub gather_rows :
    (size : ℕ) (c c' : ℕ → Option (List ℕ)) (ps : List ℕ) (rs : List (List ℕ))
    → Extends (OfLength size) c c' ps rs
    → gather c' size (length ps) ps ≡ some (join rs)
gather_rows size c c' [] [] h = refl
gather_rows size c c' [] (r ∷ rs) h = cc
gather_rows size c c' (p ∷ ps) [] h = cc
gather_rows size c c' (p ∷ ps) (r ∷ rs) (new, long, more) =
    let enough : leb size (length r) ≡ true = ground arith in
    rw
      (
        block_there (OfLength size) c c' p ps r rs more,
        enough,
        take_all size r (omega arith),
        gather_rows size (update c p (some r)) c' ps rs more,
      )
      refl

-- A new block that is filled.
pub filled :
    (c : ℕ → Option (List ℕ)) (p : ℕ) (bytes zeros : List ℕ)
    → length bytes ≡ length zeros
    → update (update c p (some zeros)) p (some (over bytes (bytes_of (update c p (some zeros) p))))
      ≡ update c p (some bytes)
filled c p bytes zeros long =
    rw
      (
        updated c p (some zeros),
        drop_all (length bytes) zeros (omega (arith, long)),
        append-nil bytes,
      )
      (update-update c p (some zeros) (some bytes))
