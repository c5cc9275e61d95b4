-- ===== src/Uvc/Jpeg/Freeing.antt =====
-- `jpeg` holds afterwards what it held before.
use linux_tutorial.Prelude.{
  ℕ, zero, suc, ◌+◌, ◌≡◌, refl, sym, ap, ◌∙◌, Option, none, some, List, [], ◌∷◌,
}
use linux_tutorial.Prog.{ret, ◌>>◌}
use linux_tutorial.Prog.Logic.{Ensures, Ensures-bind}
use linux_tutorial.Uvc.Blocks.{
  update, Extends, Extends-free, update-update, update-none, updated, block_there,
}
use linux_tutorial.Uvc.Calls.{fill, overrun, perform, Io}
use linux_tutorial.Uvc.Holdings.{Held, holdings}
use linux_tutorial.Uvc.Camera.{on}
use linux_tutorial.Uvc.Camera.Requests.{Unless, on-Unless}
use linux_tutorial.Uvc.Jpeg.{copy_pixels, make_rows, free_rows, compress, jpeg}

abbrev units : List ℕ → List (Unit {0})
units [] = []
units (p ∷ ps) = tt ∷ units ps

-- `c'` is `c` and a block at each of the pointers.
abbrev Taken : (ℕ → Option (Unit {0})) → (ℕ → Option (Unit {0})) → List ℕ → Type 0
Taken c c' ps = Extends (λ _. Unit {0}) c c' ps (units ps)

abbrev Rows : Held → Held → List ℕ → Type 0
Rows s t ps = Taken s.blocks t.blocks ps × (t ≡ record s { blocks = t.blocks })

-- One row at `p`, and those that `rest` makes.
filled-Rows :
    (bytes : Option (List ℕ)) (p : ℕ) (s : Held) (rest : Io (Option (List ℕ)))
    → s.blocks p ≡ none
    → Ensures holdings
        (record s { blocks = update s.blocks p (some tt) })
        rest
        (Unless (Rows (record s { blocks = update s.blocks p (some tt) })))
    → Ensures holdings
        (record s { blocks = update s.blocks p (some tt) })
        (elim bytes [
          | none ↦ do perform overrun; ret none
          | some row ↦ do perform (fill p row); on rest λ rows. ret (some (p ∷ rows))
        ])
        (Unless (Rows s))
filled-Rows none p s rest new h = (tt, λ _ _ ps e. cc)
filled-Rows (some row) p s rest new h = (
  updated s.blocks p (some tt),
  λ _ _.
      on-Unless (record s { blocks = update s.blocks p (some tt) }) rest _
        (Rows (record s { blocks = update s.blocks p (some tt) })) (Rows s) h
        λ t ps (taken, same) qs e.
          let longer : p ∷ ps ≡ qs = cc in rw (sym longer) ((new, tt, taken), same),
)

make_rows-Rows :
    (k i : ℕ) (rgb : List ℕ) (w : ℕ) (s : Held)
    → Ensures holdings s (make_rows k i rgb w) (Unless (Rows s))
unfolding make_rows
make_rows-Rows zero i rgb w s = λ ps e. let same : [] ≡ ps = cc in rw (sym same) (refl, refl)
make_rows-Rows (suc k) i rgb w s = (
  tt,
  λ p (new, _).
      filled-Rows (copy_pixels w 0 rgb w i) p s (make_rows k (i + 1) rgb w) new
        (make_rows-Rows k (i + 1) rgb w (record s { blocks = update s.blocks p (some tt) })),
)

free_rows-Taken :
    (c : ℕ → Option (Unit {0})) (s : Held) (ps : List ℕ)
    → Taken c s.blocks ps
    → Ensures holdings s (free_rows ps) (λ t _. t ≡ record s { blocks = c })
unfolding free_rows
free_rows-Taken c s [] same = ap (λ f. record s { blocks = f }) same
free_rows-Taken c s (p ∷ ps) (new, _, more) = (
  block_there (λ _. Unit {0}) c s.blocks p ps tt (units ps) more,
  λ _ _.
      free_rows-Taken c (record s { blocks = update s.blocks p none }) ps
        (rw (sym (update-update c p (some tt) none ∙ update-none c p new)) (
          Extends-free (λ _. Unit {0}) (update c p (some tt)) s.blocks ps (units ps) p tt more
            (updated c p (some tt)))),
)

compress-same :
    (dest : ℕ) (ps : List ℕ) (w h q : ℕ) (s : Held)
    → s.file ≡ some dest
    → Ensures holdings s (compress dest ps w h q) (λ t _. t ≡ s)
unfolding compress
compress-same dest ps w h q s there = (
  tt,
  λ _ _. (
    there,
    λ _ _. (tt, λ _ _. (tt, λ _ _. (tt, λ _ _. (tt, λ _ _. (tt, λ _ _. (tt, λ _ _. refl)))))),
  ),
)

-- The rows and their array are freed where `jpeg` returns.
pub jpeg-same :
    (dest : ℕ) (rgb : List ℕ) (w h q : ℕ) (s : Held)
    → s.file ≡ some dest
    → Ensures holdings s (jpeg dest rgb w h q) (Unless (λ t _. t ≡ s))
unfolding jpeg
jpeg-same dest rgb w h q s there = (
  tt,
  λ image (new, _).
      let s1 : Held = record s { blocks = update s.blocks image (some tt) } in
      on-Unless s1 (make_rows h 0 rgb w) _ (Rows s1) _ (make_rows-Rows h 0 rgb w s1)
        λ t ps (taken, same).
          Ensures-bind holdings t (compress dest ps w h q) _ (λ u _. u ≡ t)
            (Unless (λ (v : Held) (_ : Unit {0}). v ≡ s))
            (compress-same dest ps w h q t (ap Held.file same ∙ there))
            λ u _ still. rw still (
              Ensures-bind holdings t (free_rows ps) _ (λ v _. v ≡ record t { blocks = s1.blocks })
                (Unless (λ (v : Held) (_ : Unit {0}). v ≡ s)) (free_rows-Taken s1.blocks t ps taken)
                λ v _ freed.
                  rw (freed, same)
                    (
                      updated s.blocks image (some tt),
                      λ _ _ a e.
                          ap (λ f. record s { blocks = f })
                            (update-update s.blocks image (some tt) none
                              ∙ update-none s.blocks image new),
                    )),
)
