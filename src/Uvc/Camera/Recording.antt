-- ===== src/Uvc/Camera/Recording.antt =====
-- The camera of uvc/main.c from `camera_init` to the last frame.
use linux_tutorial.Prelude.{
  ℕ, zero, suc, ◌+◌, false, Option, none, some, ◌≡◌, ◌∙◌, refl, sym, String, inl, inr,
}
use linux_tutorial.Prelude.Int.{ℤ}
use linux_tutorial.Prog.Logic.{Ensures, Ensures-bind, Ensures_mono, Ensures-elim}
use linux_tutorial.Platform.{is_error, is_zero}
use linux_tutorial.Uvc.Calls.{Request, Data, querycap, cropcap, s_crop, streamon, s_fmt, qbuf, Io}
use linux_tutorial.Uvc.Camera.{
  Camera, on, retry, xioctl, must, set_crop, set_format, camera_init, queue_buffers, camera_start,
  camera_capture, camera_frame, take_frames, record_image,
}
use linux_tutorial.Uvc.Camera.Regions.{Regions, regions, effect}
use linux_tutorial.Uvc.Camera.Bounds.{retry-Told, must-Told, IsReady, camera_capture-IsReady}
use linux_tutorial.Uvc.Camera.Readying.{request_buffers-IsReady}

-- A function that may quit, and what follows where it does not.
on-lem :
    {A B : Type 0} (s : Regions) (m : Io (Option A)) (k : A → Io (Option B))
    (P : Regions → A → Type 0) (Q : Regions → B → Type 0)
    → Ensures regions s m (λ t r. (a : A) → r ≡ some a → P t a)
    → ((t : Regions) (a : A)
        → P t a
        → Ensures regions t (k a) (λ u r. (b : B) → r ≡ some b → Q u b))
    → Ensures regions s (on m k) (λ u r. (b : B) → r ≡ some b → Q u b)
on-lem s m k P Q h then =
    Ensures-bind regions s m _ (λ t r. (a : _) → r ≡ some a → P t a) _ h
      λ t. elim [ none ↦ λ _ b e. cc | some a ↦ λ f. then t a (f a refl) ]

-- A request that only asks or sets leaves the regions as they were.
must-keeps :
    (fd : ℤ) (req : Request) (arg : Data req) (msg : String) (s : Regions)
    → ((a : Data req) → effect s req a ≡ s)
    → Ensures regions s (must fd req arg msg) (λ t r. (a : Data req) → r ≡ some a → t ≡ s)
must-keeps fd req arg msg s plain =
    Ensures_mono regions s (must fd req arg msg) _ _ (must-Told fd req arg msg s)
      λ t r. elim [ inl ended ↦ λ a e. cc | inr told ↦ λ a e. told.3 ∙ plain told.0 ]

queue_buffers-keeps :
    (k i : ℕ) (fd : ℤ) (s : Regions)
    → Ensures regions s (queue_buffers k i fd) (λ t r. (a : Unit {0}) → r ≡ some a → t ≡ s)
unfolding queue_buffers
queue_buffers-keeps zero i fd s = λ a e. refl
queue_buffers-keeps (suc k) i fd s =
    on-lem s (must fd (qbuf i) tt "VIDIOC_QBUF") _ (λ t _. t ≡ s) _
      (must-keeps fd (qbuf i) tt "VIDIOC_QBUF" s λ _. refl)
      λ t _ same. rw same (queue_buffers-keeps k (i + 1) fd s)

camera_start-keeps :
    (camera : Camera) (s : Regions)
    → Ensures regions s (camera_start camera) (λ t r. (a : Unit {0}) → r ≡ some a → t ≡ s)
unfolding camera_start
camera_start-keeps camera s =
    on-lem s (queue_buffers camera.buffer_count 0 camera.fd) _ (λ t _. t ≡ s) _
      (queue_buffers-keeps camera.buffer_count 0 camera.fd s)
      λ t _ same. rw same (must-keeps camera.fd streamon tt "VIDIOC_STREAMON" s λ _. refl)

-- Wherever `camera_frame` returns, the camera is still ready.
camera_frame-IsReady :
    (camera : Camera) (s : Regions)
    → IsReady s camera
    → Ensures regions s (camera_frame camera) (λ t r. (a : _) → r ≡ some a → IsReady t a.1)
unfolding camera_frame
camera_frame-IsReady camera s ready = (
  tt,
  λ r _.
      Ensures-elim regions (is_error r) _ _ _ _ (λ _. (tt, λ _ _ a e. cc))
        λ _.
          Ensures-elim regions (is_zero r) _ _ _ _
            (λ _ a e. let same : (false, camera) ≡ a = cc in rw (sym same) ready)
            λ _.
              Ensures-bind regions s (camera_capture camera) _ _ _
                (camera_capture-IsReady camera s ready)
                λ t captured still a e. let same : captured ≡ a = cc in rw (sym same) still,
)

take_frames-IsReady :
    (n : ℕ) (camera : Camera) (s : Regions)
    → IsReady s camera
    → Ensures regions s (take_frames n camera) (λ t r. (c : Camera) → r ≡ some c → IsReady t c)
unfolding take_frames
take_frames-IsReady zero camera s ready = λ c e. let same : camera ≡ c = cc in rw (sym same) ready
take_frames-IsReady (suc n) camera s ready =
    on-lem s (camera_frame camera) _ (λ t a. IsReady t a.1) _ (camera_frame-IsReady camera s ready)
      λ t r still. take_frames-IsReady n r.1 t still

set_crop-ends : (fd : ℤ) (s : Regions) → Ensures regions s (set_crop fd) (λ _ _. Unit)
unfolding set_crop xioctl
set_crop-ends fd s =
    Ensures-bind regions s (retry 100 fd cropcap tt) _ _ (λ _ _. Unit)
      (retry-Told 100 fd cropcap tt s)
      λ t r _.
        Ensures-elim regions (is_zero r.0) _ _ _ _
          (λ _.
            Ensures-bind regions t (retry 100 fd s_crop tt) _ _ (λ _ _. Unit)
              (retry-Told 100 fd s_crop tt t) λ _ _ _. tt)
          (λ _. tt)

set_format-ends :
    (camera : Camera) (s : Regions)
    → Ensures regions s (set_format camera) (λ _ r. (a : Unit {0}) → r ≡ some a → Unit)
unfolding set_format
set_format-ends camera s =
    on-lem s (must camera.fd querycap (false, false) "VIDIOC_QUERYCAP") _ (λ _ _. Unit) _
      (Ensures_mono regions s (must camera.fd querycap (false, false) "VIDIOC_QUERYCAP") _ _
        (must-Told camera.fd querycap (false, false) "VIDIOC_QUERYCAP" s) λ _ _ _ _ _. tt)
      λ t cap _.
        Ensures-elim regions cap.0 _ _ _ _
          (λ _.
            Ensures-elim regions cap.1 _ _ _ _
              (λ _.
                Ensures-bind regions t (set_crop camera.fd) _ (λ _ _. Unit) _
                  (set_crop-ends camera.fd t)
                  λ u _ _.
                    on-lem u (must camera.fd (s_fmt camera.width camera.height) tt "VIDIOC_S_FMT") _
                      (λ _ _. Unit) (λ _ _. Unit)
                      (Ensures_mono regions u
                        (must camera.fd (s_fmt camera.width camera.height) tt "VIDIOC_S_FMT") _ _
                        (must-Told camera.fd (s_fmt camera.width camera.height) tt "VIDIOC_S_FMT" u)
                        λ _ _ _ _ _. tt)
                      λ _ _ _ _ _. tt)
              (λ _. (tt, λ _ _ _ _. tt)))
          (λ _. (tt, λ _ _ _ _. tt))

-- From `camera_init` to the last frame every copy is from within a buffer that the driver's frame was
-- mapped to, and to within the block that was made for it, whichever requests fail; no array is read
-- past its end.
pub record_image-IsReady :
    (camera : Camera) (s : Regions)
    → Ensures regions s (record_image camera) (λ t r. (c : Camera) → r ≡ some c → IsReady t c)
unfolding record_image camera_init
record_image-IsReady camera s =
    on-lem s (camera_init camera) _ IsReady _
      (on-lem s (set_format camera) _ (λ _ _. Unit) _ (set_format-ends camera s)
        λ t _ _. request_buffers-IsReady camera t)
      λ t c ready.
        on-lem t (camera_start c) _ (λ u _. u ≡ t) _ (camera_start-keeps c t)
          λ u _ same. rw same (
            on-lem t (take_frames 5 c) (take_frames 1) IsReady _ (take_frames-IsReady 5 c t ready)
              λ v d still. take_frames-IsReady 1 d v still)
