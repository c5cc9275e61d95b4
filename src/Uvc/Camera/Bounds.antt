-- ===== src/Uvc/Camera/Bounds.antt =====
-- The copies that the camera of uvc/main.c makes, and the memory they are between.
use linux_tutorial.Prelude.{
  ℕ, zero, suc, ◌<◌, ◌≤◌, true, false, not, Option, none, some, List, [], ◌∷◌, ◌++◌, String, ◌≡◌,
  ◌⊎◌, inl, inr, refl, arith, Bool-cases, get_elem?, length,
}
use linux_tutorial.Prelude.Int.{ℤ}
use linux_tutorial.Prog.Logic.{Ensures, Ensures-bind, Ensures-elim}
use linux_tutorial.Platform.{is_error}
use linux_tutorial.Uvc.Calls.{Request, Data, dqbuf, qbuf}
use linux_tutorial.Uvc.Camera.{Buffer, Camera, retry, xioctl, must, camera_capture}
use linux_tutorial.Uvc.Camera.Regions.{Regions, regions, fits, Tells, effect}

-- A request either fails, and changes nothing, or succeeds with what the driver documents.
abbrev pub Told : Regions → (req : Request) → Regions → ℤ × Data req → Type 0
Told s req t r =
    ((t ≡ s) × (is_error r.0 ≡ true))
    ⊎ ((is_error r.0 ≡ false) × Tells s req r.1 × (t ≡ effect s req r.1))

pub retry-Told :
    (n : ℕ) (fd : ℤ) (req : Request) (arg : Data req) (s : Regions)
    → Ensures regions s (retry n fd req arg) (Told s req)
unfolding retry
retry-Told zero fd req arg s = inl (refl, refl)
retry-Told (suc n) fd req arg s = (
  tt,
  λ r d. elim (Bool-cases (is_error r.value)) [
    | inl bad ↦ rw bad (
        Ensures-elim regions (not r.eintr) _ _ _ _ (λ _. inl (refl, bad))
          (λ _. retry-Told n fd req r.arg s))
    | inr good ↦ rw good (inr (good, d good, refl))
  ],
)

abbrev pub MustTold : Regions → (req : Request) → Regions → Option (Data req) → Type 0
MustTold s req t r =
    (r ≡ none) ⊎ ((a : Data req) × (r ≡ some a) × Tells s req a × (t ≡ effect s req a))

pub must-Told :
    (fd : ℤ) (req : Request) (arg : Data req) (msg : String) (s : Regions)
    → Ensures regions s (must fd req arg msg) (MustTold s req)
unfolding must xioctl
must-Told fd req arg msg s =
    Ensures-bind regions s (retry 100 fd req arg) _ (Told s req) (MustTold s req)
      (retry-Told 100 fd req arg s)
      λ t r. elim [
        | inl failed ↦ rw failed.1 (tt, λ _ _. inl refl)
        | inr told ↦ rw told.0 (inr (r.1, refl, told.1, told.2))
      ]

pub get_elem?-append :
    (xs ys : List Buffer) (j : ℕ) (b : Buffer)
    → get_elem? xs j ≡ some b
    → get_elem? (xs ++ ys) j ≡ some b
get_elem?-append [] ys j b h = cc
get_elem?-append (x ∷ xs) ys zero b h = h
get_elem?-append (x ∷ xs) ys (suc j) b h = get_elem?-append xs ys j b h

pub get_elem?_last :
    (xs : List Buffer) (b : Buffer) → get_elem? (xs ++ (b ∷ [])) (length xs) ≡ some b
get_elem?_last [] b = refl
get_elem?_last (x ∷ xs) b = get_elem?_last xs b

pub fits-cons :
    (p n m : ℕ) (r : ℕ × ℕ) (rs : List (ℕ × ℕ))
    → n ≡ m
    → fits p m rs ≡ true
    → fits p n (r ∷ rs) ≡ true
fits-cons p n m r rs e h = rw e (ground (arith, h))

-- The first `i` buffers of the driver are mapped, each at the address in the array, and none is longer
-- than `buf_max`.
abbrev pub IsMapped : Regions → ℕ → ℕ → List Buffer → Type 0
IsMapped s i buf_max buffers =
    (length buffers ≡ i)
    × ((j : ℕ)
        → j < i
        → (b : Buffer) × (get_elem? buffers j ≡ some b)
          × (fits b.start (s.lengths j) s.maps ≡ true)
          × (s.lengths j ≤ buf_max))

-- The buffers that the driver hands out are mapped, and a frame of each fits the copy.
abbrev pub IsReady : Regions → Camera → Type 0
IsReady s camera =
    (j : ℕ)
    → j < s.count
    → (b : Buffer) × (get_elem? camera.buffers j ≡ some b)
      × (fits b.start (s.lengths j) s.maps ≡ true)
      × (fits camera.head.start (s.lengths j) s.heap ≡ true)

fits-le : (p n m : ℕ) (rs : List (ℕ × ℕ)) → n ≤ m → fits p m rs ≡ true → fits p n rs ≡ true
fits-le p n m [] h e = e
fits-le p n m (r ∷ rs) h e = ground (arith, fits-le p n m rs h)

-- A camera that is ready stays ready: a frame is copied from within a mapped buffer to within the
-- block of the copy, whichever requests fail.
pub camera_capture-IsReady :
    (camera : Camera) (s : Regions)
    → IsReady s camera
    → Ensures regions s (camera_capture camera) (λ t r. IsReady t r.1)
unfolding camera_capture xioctl
camera_capture-IsReady camera s ready =
    Ensures-bind regions s (retry 100 camera.fd dqbuf (0, 0)) _ (Told s dqbuf) _
      (retry-Told 100 camera.fd dqbuf (0, 0) s)
      λ t r. elim [
        | inl failed ↦ rw (failed.0, failed.1) ready
        | inr told ↦
            let (b, found, mapped, copied) = ready r.1.0 told.1.0 in
            rw (told.0, told.2, found)
              (
                (
                  fits-le camera.head.start r.1.1 (s.lengths r.1.0) s.heap told.1.1 copied,
                  fits-le b.start r.1.1 (s.lengths r.1.0) s.maps told.1.1 mapped,
                ),
                λ _ _.
                    Ensures-bind regions s (retry 100 camera.fd (qbuf r.1.0) tt) _
                      (Told s (qbuf r.1.0)) _ (retry-Told 100 camera.fd (qbuf r.1.0) tt s)
                      λ u q. elim [ inl failed ↦ rw failed.0 ready | inr done ↦ rw done.2 ready ],
              )
      ]
