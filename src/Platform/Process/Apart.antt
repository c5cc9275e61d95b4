-- ===== src/Platform/Process/Apart.antt =====
-- Threads that are about to use the same descriptor or allocation.
use linux_tutorial.Prelude.{
  ℕ, ◌+◌, ◌≤◌, ◌≡◌, ◌≢◌, refl, ap, ◌∙◌, sym, Bool, true, false, Bool-cases, inl, inr, Option, none,
  some, List, [], ◌∷◌, ◌||◌, ◌&&◌, arith,
}
use linux_tutorial.Prelude.Int.{ℤ}
use linux_tutorial.Prog.{ret, call}
use linux_tutorial.Prog.Logic.{Ensures}
use linux_tutorial.Platform.{
  Call, Io, Session, bind, listen, accept, connect, send, recv, close, access, free, pthread_create,
  setlkw, mq_getattr, mq_send, mq_receive, mq_close, ssl_ctx_use_certificate_file,
  ssl_ctx_use_private_key_file, ssl_ctx_check_private_key, ssl_ctx_free, ssl_new, ssl_set_fd,
  ssl_accept, ssl_connect, ssl_read, ssl_write, ssl_shutdown, ssl_free, ssl_get_peer_certificate,
  x509_name_oneline, x509_free, is_null, is_negative,
}
use linux_tutorial.Platform.Resources.{
  Handle, fd, mem, ctx, ssl, cert, same, holds, Usable, Allowed, resources,
}
use linux_tutorial.Platform.Resources.Counts.{
  one_if, count, SameHandles, capacity, same→≡, holds→count,
}
use linux_tutorial.Platform.Process.{Thread, Shared, Reach}
use linux_tutorial.Platform.Process.Owning.{owners, keepers, Pay, Account, Releases, Reach-Account}

-- What a call works on.
abbrev pub touches : Call → List Handle
touches (bind f _) = fd f ∷ []
touches (listen f _) = fd f ∷ []
touches (accept f) = fd f ∷ []
touches (connect f _) = fd f ∷ []
touches (send f _) = fd f ∷ []
touches (recv f _) = fd f ∷ []
touches (close f) = fd f ∷ []
touches (mq_getattr f) = fd f ∷ []
touches (mq_send f _) = fd f ∷ []
touches (mq_receive f _) = fd f ∷ []
touches (mq_close f) = fd f ∷ []
touches (setlkw f _) = fd f ∷ []
touches (access p) = mem p ∷ []
touches (free p) = mem p ∷ []
touches (pthread_create e) = mem e.addr ∷ fd e.sock ∷ []
touches (ssl_ctx_use_certificate_file c _) = ctx c ∷ []
touches (ssl_ctx_use_private_key_file c _) = ctx c ∷ []
touches (ssl_ctx_check_private_key c) = ctx c ∷ []
touches (ssl_ctx_free c) = ctx c ∷ []
touches (ssl_new c) = ctx c ∷ []
touches (ssl_set_fd c f) = ssl c ∷ fd f ∷ []
touches (ssl_accept c) = ssl c ∷ []
touches (ssl_connect c) = ssl c ∷ []
touches (ssl_read c _) = ssl c ∷ []
touches (ssl_write c _) = ssl c ∷ []
touches (ssl_shutdown c) = ssl c ∷ []
touches (ssl_free c) = ssl c ∷ []
touches (ssl_get_peer_certificate c) = ssl c ∷ []
touches (x509_name_oneline c _) = cert c ∷ []
touches (x509_free c) = cert c ∷ []
touches _ = []

abbrev pub about_to : Io (Option ℤ) → List Handle
about_to (ret r) = []
about_to (call c k) = touches c

-- How many threads are about to use `h`.
abbrev pub users : Handle → List Thread → ℕ
users h [] = 0
users h (t ∷ ts) = one_if (holds h (about_to t.program)) + users h ts

abbrev pub has_returned : Io (Option ℤ) → Bool
has_returned (ret (some r)) = true
has_returned _ = false

abbrev pub all_returned : List Thread → Bool
all_returned [] = true
all_returned (t ∷ ts) = has_returned t.program && all_returned ts

held :
    (g : Handle) (owns : List Handle) (nothing : Bool)
    → capacity g ≡ 1
    → (nothing ≡ true → capacity g ≡ 0)
    → (nothing || holds g owns) ≡ true
    → 1 ≤ count g owns
held g owns true real none_such allowed = absurd (omega (arith, none_such refl))
held g owns false real none_such allowed = holds→count g owns allowed

used-le :
    (h g : Handle) (gs owns : List Handle) (nothing : Bool)
    → capacity h ≡ 1
    → (nothing ≡ true → capacity g ≡ 0)
    → (nothing || holds g owns) ≡ true
    → one_if (holds h gs) ≤ count h owns
    → one_if (holds h (g ∷ gs)) ≤ count h owns
used-le h g gs owns nothing real none_such allowed rest = elim (Bool-cases (same h g)) [
  | inr n ↦ rw n rest
  | inl y ↦
      let same_room : capacity g ≡ 1 = ap capacity (sym (same→≡ h g y)) ∙ real in
      let here : count h owns ≡ count g owns = ap (λ x. count x owns) (same→≡ h g y) in
      rw y (omega (arith, here, held g owns nothing same_room none_such allowed))
]

object-le :
    (h g : Handle) (gs owns : List Handle)
    → capacity h ≡ 1
    → holds g owns ≡ true
    → one_if (holds h gs) ≤ count h owns
    → one_if (holds h (g ∷ gs)) ≤ count h owns
object-le h g gs owns real allowed = used-le h g gs owns false real (λ e. cc) allowed

descriptor-le :
    (h : Handle) (f : ℤ) (gs owns : List Handle)
    → capacity h ≡ 1
    → Usable owns f
    → one_if (holds h gs) ≤ count h owns
    → one_if (holds h (fd f ∷ gs)) ≤ count h owns
descriptor-le h f gs owns real allowed =
    used-le h (fd f) gs owns (is_negative f) real (λ e. rw e refl) allowed

touches-le :
    (h : Handle) (owns : List Handle) (c : Call)
    → capacity h ≡ 1
    → Allowed owns c
    → one_if (holds h (touches c)) ≤ count h owns
touches-le h owns (bind f _) real a = descriptor-le h f [] owns real a (omega arith)
touches-le h owns (listen f _) real a = descriptor-le h f [] owns real a (omega arith)
touches-le h owns (accept f) real a = descriptor-le h f [] owns real a (omega arith)
touches-le h owns (connect f _) real a = descriptor-le h f [] owns real a (omega arith)
touches-le h owns (send f _) real a = descriptor-le h f [] owns real a (omega arith)
touches-le h owns (recv f _) real a = descriptor-le h f [] owns real a (omega arith)
touches-le h owns (close f) real a = descriptor-le h f [] owns real a (omega arith)
touches-le h owns (mq_getattr f) real a = descriptor-le h f [] owns real a (omega arith)
touches-le h owns (mq_send f _) real a = descriptor-le h f [] owns real a (omega arith)
touches-le h owns (mq_receive f _) real a = descriptor-le h f [] owns real a (omega arith)
touches-le h owns (mq_close f) real a = descriptor-le h f [] owns real a (omega arith)
touches-le h owns (setlkw f _) real a = descriptor-le h f [] owns real a (omega arith)
touches-le h owns (access p) real a = object-le h (mem p) [] owns real a (omega arith)
touches-le h owns (free p) real a =
    used-le h (mem p) [] owns (is_null p) real (λ e. rw e refl) a (omega arith)
touches-le h owns (pthread_create e) real a =
    object-le h (mem e.addr) (fd e.sock ∷ []) owns real a.0
      (object-le h (fd e.sock) [] owns real a.1 (omega arith))
touches-le h owns (ssl_set_fd c f) real a =
    object-le h (ssl c) (fd f ∷ []) owns real a.0 (descriptor-le h f [] owns real a.1 (omega arith))
touches-le h owns (ssl_ctx_use_certificate_file c _) real a =
    object-le h (ctx c) [] owns real a (omega arith)
touches-le h owns (ssl_ctx_use_private_key_file c _) real a =
    object-le h (ctx c) [] owns real a (omega arith)
touches-le h owns (ssl_ctx_check_private_key c) real a =
    object-le h (ctx c) [] owns real a (omega arith)
touches-le h owns (ssl_ctx_free c) real a = object-le h (ctx c) [] owns real a (omega arith)
touches-le h owns (ssl_new c) real a = object-le h (ctx c) [] owns real a (omega arith)
touches-le h owns (ssl_accept c) real a = object-le h (ssl c) [] owns real a (omega arith)
touches-le h owns (ssl_connect c) real a = object-le h (ssl c) [] owns real a (omega arith)
touches-le h owns (ssl_read c _) real a = object-le h (ssl c) [] owns real a (omega arith)
touches-le h owns (ssl_write c _) real a = object-le h (ssl c) [] owns real a (omega arith)
touches-le h owns (ssl_shutdown c) real a = object-le h (ssl c) [] owns real a (omega arith)
touches-le h owns (ssl_free c) real a = object-le h (ssl c) [] owns real a (omega arith)
touches-le h owns (ssl_get_peer_certificate c) real a =
    object-le h (ssl c) [] owns real a (omega arith)
touches-le h owns (x509_name_oneline c _) real a = object-le h (cert c) [] owns real a (omega arith)
touches-le h owns (x509_free c) real a = object-le h (cert c) [] owns real a (omega arith)
touches-le h owns _ real a = omega arith

about_to-le :
    (h : Handle) (p : Io (Option ℤ)) (owns : List Handle) (Q : List Handle → Option ℤ → Type 0)
    → capacity h ≡ 1
    → Ensures (resources true) owns p Q
    → one_if (holds h (about_to p)) ≤ count h owns
about_to-le h (ret r) owns Q real pays = omega arith
about_to-le h (call c k) owns Q real pays = touches-le h owns c real pays.0

users-le : (h : Handle) (ts : List Thread) → capacity h ≡ 1 → Pay ts → users h ts ≤ owners h ts
users-le h [] real pays = omega arith
users-le h (t ∷ ts) real (pays, rest) =
    omega (arith, about_to-le h t.program t.owns _ real pays, users-le h ts real rest)

has_returned-keeps :
    (p : Io (Option ℤ)) (owns keeps : List Handle)
    → has_returned p ≡ true
    → Ensures (resources true) owns p (λ u r. r ≢ none → u ≡ keeps)
    → owns ≡ keeps
has_returned-keeps (ret none) owns keeps e pays = absurd (ground arith)
has_returned-keeps (ret (some r)) owns keeps e pays = pays (λ x. cc)
has_returned-keeps (call c k) owns keeps e pays = absurd (ground arith)

both_true : (a b : Bool) → (a && b) ≡ true → (a ≡ true) × (b ≡ true)
both_true a b e = ground arith

returned-keeps :
    (h : Handle) (ts : List Thread) → all_returned ts ≡ true → Pay ts → owners h ts ≡ keepers h ts
returned-keeps h [] e pays = refl
returned-keeps h (t ∷ ts) e (pays, rest) =
    let (one, others) = both_true (has_returned t.program) (all_returned ts) e in
    let same_there : count h t.owns ≡ count h t.keeps =
      ap (count h) (has_returned-keeps t.program t.owns t.keeps one pays) in
    omega (arith, same_there, returned-keeps h ts others rest)

module _ (session : Session → Io (Option ℤ)) (releases : Releases session) (kept : List Handle)
    {s : Shared} {ts : List Thread} {n : ℕ} {s' : Shared} {ts' : List Thread}
    (begun : Account kept s ts) (reached : Reach session s ts n s' ts') where
  -- No two threads are about to use one handle, and one that is to be used is there.
  pub Reach-apart :
      (h : Handle) → capacity h ≡ 1 → (users h ts' ≤ count h s'.table) × (count h s'.table ≤ 1)
  Reach-apart h real =
      let (pays, owned, keep, sound) = Reach-Account session releases kept begun reached in
      (omega (arith, users-le h ts' real pays, owned h), omega (arith, sound h))

  -- When every thread has returned, what they keep is all that is left.
  pub Reach-drained : all_returned ts' ≡ true → SameHandles s'.table kept
  Reach-drained e h =
      let (pays, owned, keep, sound) = Reach-Account session releases kept begun reached in
      omega (arith, returned-keeps h ts' e pays, owned h, keep h)
