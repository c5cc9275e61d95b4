-- ===== src/Platform/Strings.antt =====
-- C strings in char arrays: which buffers `%s` can print.
use linux_tutorial.Prelude.{
  ℕ, zero, suc, ◌-◌, ◌<◌, ◌≡◌, refl, none, some, List, [], ◌∷◌, ◌++◌, map, arith, length, replicate,
  get_elem?, lt→ltb,
}
use linux_tutorial.Prelude.Decimal.{All}
use linux_tutorial.Platform.{Buffer, filled, sprintf, c_string}

abbrev pub IsText : List ℕ → Type 0
IsText = All (λ c. 0 < c)

-- Bytes without a NUL, in an array that is not written further, end in no string.
pub c_string-filled : (text : List ℕ) (n : ℕ) → IsText text → c_string (filled n text) ≡ none
c_string-filled text n h = go text (n - length text) h
  where
    go : (t : List ℕ) (k : ℕ) → IsText t → c_string (map some t ++ replicate k none) ≡ none
    go [] zero _ = refl
    go [] (suc k) _ = refl
    go (zero ∷ t) k q = absurd (omega arith)
    go (suc b ∷ t) k q = rw (go t k q.1)

-- What ends with a NUL is printed up to it.
pub c_string-append :
    (text : List ℕ) (cells : Buffer)
    → IsText text
    → c_string (map some text ++ (some 0 ∷ cells)) ≡ some text
c_string-append [] cells h = refl
c_string-append (zero ∷ t) cells h = absurd (omega arith)
c_string-append (suc b ∷ t) cells h = rw (c_string-append t cells h.1)

unwritten :
    (text : List ℕ) (k : ℕ)
    → 0 < k
    → get_elem? (map some text ++ (some 0 ∷ replicate k none)) (suc (length text)) ≡ some none
unwritten [] zero h = absurd (omega arith)
unwritten [] (suc k) h = refl
unwritten (c ∷ text) k h = unwritten text k h

-- `sprintf` of a text that leaves room: the array reads as the text, and the char behind its NUL was
-- never written.
pub c_string-sprintf :
    (n : ℕ) (text : List ℕ)
    → suc (length text) < n
    → IsText text
    → (buf : Buffer) × (sprintf n text ≡ some buf)
      × (c_string buf ≡ some text)
      × (get_elem? buf (suc (length text)) ≡ some none)
c_string-sprintf n text fits h = (
  map some text ++ (some 0 ∷ replicate (n - length text - 1) none),
  rw (lt→ltb (length text) n (omega arith)),
  c_string-append text _ h,
  unwritten text (n - length text - 1) (omega arith),
)
