-- ===== src/Platform/Process/Balances.antt =====
-- What a call changes in the table of a process, its caller loses or gets, or a new thread gets.
use linux_tutorial.Prelude.{
  ◌+◌, ◌≤◌, ◌≡◌, refl, ap, ◌∙◌, true, false, Bool, Bool-cases, inl, inr, List, [], ◌∷◌, ◌||◌, ◌<◌,
  if◌then◌else◌, arith,
}
use linux_tutorial.Prelude.Int.{pos}
use linux_tutorial.Platform.{
  Call, Reply, socket, accept, malloc, free, close, pthread_create, mq_open, shm_open, mq_close,
  ssl_ctx_new, ssl_ctx_free, ssl_new, ssl_free, ssl_get_peer_certificate, x509_name_oneline,
  x509_free, is_zero, is_null, is_negative,
}
use linux_tutorial.Platform.Resources.{
  Handle, fd, mem, ctx, ssl, cert, same, holds, release, Allowed, Documented, next, stdio,
}
use linux_tutorial.Platform.Resources.Counts.{
  count, capacity, same→≡, holds→count, count-release, release_missing, release-le, holds→missing,
}
use linux_tutorial.Platform.Process.{given, table_after}

-- No descriptor of the table is negative, no allocation NULL, and each is there once.
abbrev pub Sound : List Handle → Type 0
Sound table = (h : Handle) → count h table ≤ capacity h

abbrev pub Part : List Handle → List Handle → Type 0
Part owns table = (h : Handle) → count h owns ≤ count h table

-- A release from the table and from the owner takes the same from both. What no one can own, such
-- as NULL, is in neither.
release-balances :
    (h g : Handle) (table owns : List Handle) (nothing : Bool)
    → Part owns table
    → Sound table
    → (nothing ≡ true → capacity g ≡ 0)
    → (nothing || holds g owns) ≡ true
    → count h (release g table) + count h owns ≡ count h table + (count h (release g owns) + 0)
release-balances h g table owns true part sound none_such allowed =
    let in_table : count g table ≡ 0 = omega (arith, sound g, none_such refl) in
    let in_owns : count g owns ≡ 0 = omega (arith, part g) in
    rw (release_missing g table in_table, release_missing g owns in_owns) (omega arith)
release-balances h g table owns false part sound none_such allowed =
    let held : 0 < count g owns = holds→count g owns allowed in
    omega (arith, count-release h g table (omega (arith, part g)), count-release h g owns held)

-- A handle that is new to the table comes into it once.
gain-Sound :
    (table : List Handle) (g : Handle) (nothing : Bool)
    → holds g table ≡ false
    → (nothing ≡ false → capacity g ≡ 1)
    → Sound table
    → Sound (if nothing then table else g ∷ table)
gain-Sound table g true fresh room sound h = sound h
gain-Sound table g false fresh room sound h = elim (Bool-cases (same h g)) [
  | inl y ↦
      let empty : count h table ≡ 0 =
        ap (λ x. count x table) (same→≡ h g y) ∙ holds→missing g table fresh in
      let one : capacity h ≡ 1 = ap capacity (same→≡ h g y) ∙ room refl in
      rw y (omega (arith, empty, one))
  | inr n ↦ rw n (omega (arith, sound h))
]

pub next-balances :
    (h : Handle) (table owns : List Handle) (c : Call) (r : Reply c)
    → Part owns table
    → Sound table
    → Allowed owns c
    → count h (table_after table c r) + count h owns
      ≡ count h table + (count h (next owns c r) + count h (given c r))
next-balances h table owns (socket _) r part sound allowed = ground arith
next-balances h table owns (accept _) r part sound allowed = ground arith
next-balances h table owns (malloc _) p part sound allowed = ground arith
next-balances h table owns (ssl_ctx_new _) p part sound allowed = ground arith
next-balances h table owns (ssl_new _) p part sound allowed = ground arith
next-balances h table owns (ssl_get_peer_certificate _) p part sound allowed = ground arith
next-balances h table owns (x509_name_oneline _ _) p part sound allowed = ground arith
next-balances h table owns (mq_open _ _) r part sound allowed = ground arith
next-balances h table owns (shm_open _) r part sound allowed = ground arith
next-balances h table owns (ssl_ctx_free p) r part sound allowed =
    release-balances h (ctx p) table owns false part sound (λ e. cc) allowed
next-balances h table owns (ssl_free p) r part sound allowed =
    release-balances h (ssl p) table owns false part sound (λ e. cc) allowed
next-balances h table owns (x509_free p) r part sound allowed =
    release-balances h (cert p) table owns false part sound (λ e. cc) allowed
next-balances h table owns (mq_close f) r part sound allowed =
    release-balances h (fd f) table owns (is_negative f) part sound (λ e. rw e refl) allowed
next-balances h table owns (close f) r part sound allowed =
    release-balances h (fd f) table owns (is_negative f) part sound (λ e. rw e refl) allowed
next-balances h table owns (free p) r part sound allowed =
    release-balances h (mem p) table owns (is_null p) part sound (λ e. rw e refl) allowed
next-balances h table owns (pthread_create e) r part sound allowed =
    let in_owns : 0 < count (mem e.addr) owns = holds→count (mem e.addr) owns allowed.0 in
    let sock_in : 0 < count (fd e.sock) owns = holds→count (fd e.sock) owns allowed.1 in
    let first_gone = count-release h (mem e.addr) owns in_owns in
    let same_sock = count-release (fd e.sock) (mem e.addr) owns in_owns in
    let then_gone =
      count-release h (fd e.sock) (release (mem e.addr) owns) (omega (arith, same_sock)) in
    elim (Bool-cases (is_zero r)) [
      | inl y ↦ rw y (omega (arith, first_gone, then_gone))
      | inr n ↦ rw n (omega arith)
    ]
next-balances h table owns _ r part sound allowed = omega arith

pub next-Sound :
    (table : List Handle) (c : Call) (r : Reply c)
    → Documented true table c r
    → Sound table
    → Sound (table_after table c r)
next-Sound table (socket _) r d sound h =
    gain-Sound table (fd r) (is_negative r) d (λ e. rw e refl) sound h
next-Sound table (accept _) r d sound h =
    gain-Sound table (fd r) (is_negative r) d.0 (λ e. rw e refl) sound h
next-Sound table (malloc _) p d sound h =
    gain-Sound table (mem p) (is_null p) d.0 (λ e. rw e refl) sound h
next-Sound table (ssl_ctx_new _) p d sound h =
    gain-Sound table (ctx p) (is_null p) d (λ e. rw e refl) sound h
next-Sound table (ssl_new _) p d sound h =
    gain-Sound table (ssl p) (is_null p) d.0 (λ e. rw e refl) sound h
next-Sound table (ssl_get_peer_certificate _) p d sound h =
    gain-Sound table (cert p) (is_null p) d (λ e. rw e refl) sound h
next-Sound table (x509_name_oneline _ _) p d sound h =
    gain-Sound table (mem p) (is_null p) d (λ e. rw e refl) sound h
next-Sound table (mq_open _ _) r d sound h =
    gain-Sound table (fd r) (is_negative r) d (λ e. rw e refl) sound h
next-Sound table (shm_open _) r d sound h =
    gain-Sound table (fd r) (is_negative r) d (λ e. rw e refl) sound h
next-Sound table (ssl_ctx_free p) r d sound h = omega (arith, sound h, release-le h (ctx p) table)
next-Sound table (ssl_free p) r d sound h = omega (arith, sound h, release-le h (ssl p) table)
next-Sound table (x509_free p) r d sound h = omega (arith, sound h, release-le h (cert p) table)
next-Sound table (mq_close f) r d sound h = omega (arith, sound h, release-le h (fd f) table)
next-Sound table (close f) r d sound h = omega (arith, sound h, release-le h (fd f) table)
next-Sound table (free p) r d sound h = omega (arith, sound h, release-le h (mem p) table)
next-Sound table (pthread_create e) r d sound h = sound h
next-Sound table _ r d sound h = sound h

missing-Part :
    (g : Handle) (table owns : List Handle)
    → Part owns table
    → holds g table ≡ false
    → holds g owns ≡ false
missing-Part g table owns part fresh = elim (Bool-cases (holds g owns)) [
  | inl y ↦ absurd (omega (arith, holds→count g owns y, part g, holds→missing g table fresh))
  | inr n ↦ n
]

-- What is documented of the table is documented of each owner's part of it.
pub Part-Documented :
    (table owns : List Handle) (c : Call) (r : Reply c)
    → Part owns table
    → Documented true table c r
    → Documented true owns c r
Part-Documented table owns (socket _) r part d = missing-Part (fd r) table owns part d
Part-Documented table owns (accept _) r part d = (missing-Part (fd r) table owns part d.0, d.1)
Part-Documented table owns (malloc _) p part d = (missing-Part (mem p) table owns part d.0, d.1)
Part-Documented table owns (ssl_ctx_new _) p part d = missing-Part (ctx p) table owns part d
Part-Documented table owns (ssl_new _) p part d = (missing-Part (ssl p) table owns part d.0, d.1)
Part-Documented table owns (ssl_get_peer_certificate _) p part d =
    missing-Part (cert p) table owns part d
Part-Documented table owns (x509_name_oneline _ _) p part d = missing-Part (mem p) table owns part d
Part-Documented table owns (mq_open _ _) r part d = missing-Part (fd r) table owns part d
Part-Documented table owns (shm_open _) r part d = missing-Part (fd r) table owns part d
Part-Documented table owns _ r part d = d

pub stdio-Sound : Sound stdio
stdio-Sound =
    gain-Sound (fd (pos 1) ∷ fd (pos 2) ∷ []) (fd (pos 0)) false refl (λ _. refl)
      (gain-Sound (fd (pos 2) ∷ []) (fd (pos 1)) false refl (λ _. refl)
        (gain-Sound [] (fd (pos 2)) false refl (λ _. refl) λ h. omega arith))
