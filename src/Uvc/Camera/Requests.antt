-- ===== src/Uvc/Camera/Requests.antt =====
-- The requests of the camera hold nothing more and let nothing go.
use linux_tutorial.Prelude.{
  ℕ, zero, suc, ◌+◌, false, not, ◌||◌, Option, none, some, ◌≡◌, refl, String,
}
use linux_tutorial.Prelude.Int.{ℤ}
use linux_tutorial.Prog.Logic.{Ensures, Ensures-bind, Ensures-elim}
use linux_tutorial.Platform.{is_error, is_zero}
use linux_tutorial.Uvc.Calls.{Request, Data, querycap, cropcap, s_crop, streamon, s_fmt, qbuf, Io}
use linux_tutorial.Uvc.Camera.{
  Camera, on, retry, xioctl, must, set_crop, set_format, queue_buffers, camera_start,
}
use linux_tutorial.Uvc.Holdings.{Held, holdings}

-- What holds where a function did not quit.
abbrev pub Unless : {A : Type 0} → (Held → A → Type 0) → Held → Option A → Type 0
Unless {A} P t r = (a : A) → r ≡ some a → P t a

pub on-Unless :
    {A B : Type 0} (s : Held) (m : Io (Option A)) (k : A → Io (Option B)) (P : Held → A → Type 0)
    (Q : Held → B → Type 0)
    → Ensures holdings s m (Unless P)
    → ((t : Held) (a : A) → P t a → Ensures holdings t (k a) (Unless Q))
    → Ensures holdings s (on m k) (Unless Q)
on-Unless s m k P Q h then =
    Ensures-bind holdings s m _ (Unless P) (Unless Q) h
      λ t. elim [ none ↦ λ _ b e. cc | some a ↦ λ f. then t a (f a refl) ]

pub retry-same :
    (n : ℕ) (fd : ℤ) (req : Request) (arg : Data req) (s : Held)
    → s.descriptor ≡ some fd
    → Ensures holdings s (retry n fd req arg) (λ t _. t ≡ s)
unfolding retry
retry-same zero fd req arg s h = refl
retry-same (suc n) fd req arg s h = (
  h,
  λ r _.
      Ensures-elim holdings (not (is_error r.value) || not r.eintr) _ _ _ _ (λ _. refl)
        (λ _. retry-same n fd req r.arg s h),
)

pub must-same :
    (fd : ℤ) (req : Request) (arg : Data req) (msg : String) (s : Held)
    → s.descriptor ≡ some fd
    → Ensures holdings s (must fd req arg msg) (Unless (λ t _. t ≡ s))
unfolding must xioctl
must-same fd req arg msg s h =
    Ensures-bind holdings s (retry 100 fd req arg) _ (λ t _. t ≡ s) (Unless (λ t _. t ≡ s))
      (retry-same 100 fd req arg s h)
      λ t r same.
        Ensures-elim holdings (is_error r.0) _ _ _ _ (λ _. (tt, λ _ _ a e. cc)) (λ _ a e. same)

queue_buffers-same :
    (k i : ℕ) (fd : ℤ) (s : Held)
    → s.descriptor ≡ some fd
    → Ensures holdings s (queue_buffers k i fd) (Unless (λ t _. t ≡ s))
unfolding queue_buffers
queue_buffers-same zero i fd s h = λ a e. refl
queue_buffers-same (suc k) i fd s h =
    on-Unless s (must fd (qbuf i) tt "VIDIOC_QBUF") _ (λ t _. t ≡ s) _
      (must-same fd (qbuf i) tt "VIDIOC_QBUF" s h)
      λ t _ same. rw same (queue_buffers-same k (i + 1) fd s h)

pub camera_start-same :
    (camera : Camera) (s : Held)
    → s.descriptor ≡ some camera.fd
    → Ensures holdings s (camera_start camera) (Unless (λ t _. t ≡ s))
unfolding camera_start
camera_start-same camera s h =
    on-Unless s (queue_buffers camera.buffer_count 0 camera.fd) _ (λ t _. t ≡ s) _
      (queue_buffers-same camera.buffer_count 0 camera.fd s h)
      λ t _ same. rw same (must-same camera.fd streamon tt "VIDIOC_STREAMON" s h)

set_crop-same :
    (fd : ℤ) (s : Held) → s.descriptor ≡ some fd → Ensures holdings s (set_crop fd) (λ t _. t ≡ s)
unfolding set_crop xioctl
set_crop-same fd s h =
    Ensures-bind holdings s (retry 100 fd cropcap tt) _ (λ t _. t ≡ s) (λ t _. t ≡ s)
      (retry-same 100 fd cropcap tt s h)
      λ t r same. rw same (
        Ensures-elim holdings (is_zero r.0) _ _ _ _
          (λ _.
            Ensures-bind holdings s (retry 100 fd s_crop tt) _ (λ t _. t ≡ s) (λ t _. t ≡ s)
              (retry-same 100 fd s_crop tt s h) λ u _ still. still)
          (λ _. refl))

pub set_format-same :
    (camera : Camera) (s : Held)
    → s.descriptor ≡ some camera.fd
    → Ensures holdings s (set_format camera) (Unless (λ t _. t ≡ s))
unfolding set_format
set_format-same camera s h =
    on-Unless s (must camera.fd querycap (false, false) "VIDIOC_QUERYCAP") _ (λ t _. t ≡ s) _
      (must-same camera.fd querycap (false, false) "VIDIOC_QUERYCAP" s h)
      λ t cap same. rw same (
        Ensures-elim holdings cap.0 _ _ _ _
          (λ _.
            Ensures-elim holdings cap.1 _ _ _ _
              (λ _.
                Ensures-bind holdings s (set_crop camera.fd) _ (λ t _. t ≡ s)
                  (Unless (λ t _. t ≡ s)) (set_crop-same camera.fd s h)
                  λ u _ still. rw still (
                    on-Unless s
                      (must camera.fd (s_fmt camera.width camera.height) tt "VIDIOC_S_FMT") _
                      (λ t _. t ≡ s) _
                      (must-same camera.fd (s_fmt camera.width camera.height) tt "VIDIOC_S_FMT" s h)
                      λ v _ stays a e. stays))
              (λ _. (tt, λ _ _ a e. cc)))
          (λ _. (tt, λ _ _ a e. cc)))
