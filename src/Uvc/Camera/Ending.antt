-- ===== src/Uvc/Camera/Ending.antt =====
-- What opening, stopping and closing the camera take and let go of.
use linux_tutorial.Prelude.{ℕ, none, some, ◌≡◌, refl, sym, String, [], Bool-cases, inl, inr}
use linux_tutorial.Prog.Logic.{Ensures, Ensures-elim}
use linux_tutorial.Platform.{is_error}
use linux_tutorial.Uvc.Blocks.{update}
use linux_tutorial.Uvc.Calls.{streamoff}
use linux_tutorial.Uvc.Holdings.{Held, holdings}
use linux_tutorial.Uvc.Camera.{Camera, camera_open, camera_stop, camera_close}
use linux_tutorial.Uvc.Camera.Requests.{Unless, must-same}

-- What `camera_open` takes: the descriptor and the block of the camera.
abbrev pub Opened : Held → Held → ℕ × Camera → Type 0
Opened s t a =
    (s.blocks a.0 ≡ none)
    × (t ≡ record s { descriptor = some a.1.fd; blocks = update s.blocks a.0 (some tt) })

pub camera_open-Opened :
    (device : String) (width height : ℕ) (s : Held)
    → s.descriptor ≡ none
    → Ensures holdings s (camera_open device width height) (Unless (Opened s))
unfolding camera_open
camera_open-Opened device width height s h = (
  h,
  λ fd _. elim (Bool-cases (is_error fd)) [
    | inl bad ↦ rw bad (tt, λ _ _ a e. cc)
    | inr good ↦ rw good (
      tt,
      λ addr (new, _) a e.
          let same : (
            addr,
            record {
              fd = fd;
              width = width;
              height = height;
              buffer_count = 0;
              buffers_at = 0;
              buffers = [];
              head = record { start = 0; length = 0 };
            },
          )
              ≡ a =
            cc in
          rw (sym same) (new, refl),
    )
  ],
)

pub camera_stop-same :
    (camera : Camera) (s : Held)
    → s.descriptor ≡ some camera.fd
    → Ensures holdings s (camera_stop camera) (Unless (λ t _. t ≡ s))
unfolding camera_stop
camera_stop-same camera s h = must-same camera.fd streamoff tt "VIDIOC_STREAMOFF" s h

pub camera_close-closes :
    (addr : ℕ) (camera : Camera) (s : Held)
    → s.descriptor ≡ some camera.fd
    → s.blocks addr ≡ some tt
    → Ensures holdings s
        (camera_close addr camera)
        (Unless (λ t _. t ≡ record s { descriptor = none; blocks = update s.blocks addr none }))
unfolding camera_close
camera_close-closes addr camera s h there = (
  h,
  λ r _.
      Ensures-elim holdings (is_error r) _ _ _ _ (λ _. (tt, λ _ _ a e. cc))
        (λ _. (there, λ _ _ a e. refl)),
)
