-- ===== src/Uvc/Blocks.antt =====
-- What is known of the blocks of memory, by their pointers: what is added to it, and taken away again.
use mathlib.Core.Path.{fun_ext}
use linux_tutorial.Prelude.{
  ℕ, ◌≡◌, ◌≢◌, sym, ap, ◌∙◌, true, false, Option, none, some, List, [], ◌∷◌, arith, ◌==◌,
  if◌then◌else◌,
}

module _ {A : Type 0} where
  abbrev pub update : (ℕ → Option A) → ℕ → Option A → ℕ → Option A
  update c p v q = if q == p then v else c q

  -- `c'` is `c` and, for each of the pointers, a new block with that value; each value fits.
  abbrev pub Extends : (A → Type 0) → (ℕ → Option A) → (ℕ → Option A) → List ℕ → List A → Type 0
  Extends Fits c c' [] [] = c' ≡ c
  Extends Fits c c' (p ∷ ps) (r ∷ rs) =
      (c p ≡ none) × (Fits r) × Extends Fits (update c p (some r)) c' ps rs
  Extends Fits c c' [] (r ∷ rs) = false ≡ true
  Extends Fits c c' (p ∷ ps) [] = false ≡ true

  pub update-update :
      (c : ℕ → Option A) (p : ℕ) (v w : Option A) → update (update c p v) p w ≡ update c p w
  update-update c p v w = fun_ext λ q. ground arith

  pub update-none : (c : ℕ → Option A) (p : ℕ) → c p ≡ none → update c p none ≡ c
  update-none c p e = fun_ext λ q. ground (arith, e)

  update_comm :
      (c : ℕ → Option A) (p q : ℕ) (v w : Option A)
      → p ≢ q
      → update (update c p v) q w ≡ update (update c q w) p v
  update_comm c p q v w h = fun_ext λ x. ground (arith, h)

  -- What was there stays.
  Extends-keeps :
      (Fits : A → Type 0) (c c' : ℕ → Option A) (ps : List ℕ) (rs : List A) (q : ℕ) (b : A)
      → Extends Fits c c' ps rs
      → c q ≡ some b
      → c' q ≡ some b
  Extends-keeps Fits c c' [] [] q b same e = ap (λ f. f q) same ∙ e
  Extends-keeps Fits c c' [] (r ∷ rs) q b h e = cc
  Extends-keeps Fits c c' (p ∷ ps) [] q b h e = cc
  Extends-keeps Fits c c' (p ∷ ps) (r ∷ rs) q b (new, long, more) e =
      Extends-keeps Fits (update c p (some r)) c' ps rs q b more (ground (arith, new, e))

  -- Freeing what was there before.
  pub Extends-free :
      (Fits : A → Type 0) (c c' : ℕ → Option A) (ps : List ℕ) (rs : List A) (q : ℕ) (b : A)
      → Extends Fits c c' ps rs
      → c q ≡ some b
      → Extends Fits (update c q none) (update c' q none) ps rs
  Extends-free Fits c c' [] [] q b same e = ap (λ f. update f q none) same
  Extends-free Fits c c' [] (r ∷ rs) q b h e = h
  Extends-free Fits c c' (p ∷ ps) [] q b h e = h
  Extends-free Fits c c' (p ∷ ps) (r ∷ rs) q b (new, long, more) e =
      let other : p ≢ q = λ same. let clash : none ≡ some b = sym new ∙ ap c same ∙ e in cc in
      (
        ground (arith, new, e),
        long,
        rw (sym (update_comm c p q (some r) none other))
            (Extends-free Fits (update c p (some r)) c' ps rs q b more (ground (arith, new, e))),
      )

  -- The block at the first pointer.
  pub block_there :
      (Fits : A → Type 0) (c c' : ℕ → Option A) (p : ℕ) (ps : List ℕ) (r : A) (rs : List A)
      → Extends Fits (update c p (some r)) c' ps rs
      → c' p ≡ some r
  block_there Fits c c' p ps r rs more =
      Extends-keeps Fits (update c p (some r)) c' ps rs p r more (ground arith)

  pub updated : (c : ℕ → Option A) (p : ℕ) (v : Option A) → update c p v p ≡ v
  updated c p v = ground arith

  -- A block stays where another is new.
  pub update_other :
      (c : ℕ → Option A) (p q : ℕ) (v : Option A) (b : A)
      → c q ≡ some b
      → c p ≡ none
      → update c p v q ≡ some b
  update_other c p q v b there new =
      let other : q ≢ p = λ same. let clash : some b ≡ none = sym there ∙ ap c same ∙ new in cc in
      ground (arith, other, there)
