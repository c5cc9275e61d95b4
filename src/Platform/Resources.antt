-- ===== src/Platform/Resources.antt =====
-- Who owns which descriptor and which allocation. The documents of the platform that are used: a
-- new descriptor or allocation is none that is open, calls on an invalid descriptor fail, and `recv`
-- writes no more than it was asked for.
pub mod Counts
use linux_tutorial.Prelude.{
  ℕ, ◌≤◌, ◌≡◌, ◌≢◌, Bool, true, false, ◌||◌, List, [], ◌∷◌, ◌==◌, if◌then◌else◌, length,
}
use linux_tutorial.Prelude.Int.{ℤ, pos, negsuc}
use linux_tutorial.Prog.Logic.{Monitor}
use linux_tutorial.Platform.{
  Call, Reply, socket, bind, listen, accept, connect, send, recv, close, malloc, access, free,
  pthread_create, mq_open, shm_open, setlkw, mq_getattr, mq_send, mq_receive, mq_close, ssl_ctx_new,
  ssl_ctx_use_certificate_file, ssl_ctx_use_private_key_file, ssl_ctx_check_private_key,
  ssl_ctx_free, ssl_new, ssl_set_fd, ssl_accept, ssl_connect, ssl_read, ssl_write, ssl_shutdown,
  ssl_free, ssl_get_peer_certificate, x509_name_oneline, x509_free, Session, eq_ℤ, is_zero, is_null,
  is_negative,
}

pub data Handle : Type 0 where
  fd : ℤ → Handle
  mem : ℕ → Handle
  ctx : ℕ → Handle  -- an SSL_CTX
  ssl : ℕ → Handle  -- an SSL
  cert : ℕ → Handle  -- an X509

abbrev pub same : Handle → Handle → Bool
same (fd a) (fd b) = eq_ℤ a b
same (mem a) (mem b) = a == b
same (ctx a) (ctx b) = a == b
same (ssl a) (ssl b) = a == b
same (cert a) (cert b) = a == b
same _ _ = false

abbrev pub holds : Handle → List Handle → Bool
holds h [] = false
holds h (g ∷ gs) = same h g || holds h gs

-- Gives up the first that is the same.
abbrev pub release : Handle → List Handle → List Handle
release h [] = []
release h (g ∷ gs) = if same h g then gs else g ∷ release h gs

-- A call on an invalid descriptor fails and does no harm; one on a closed descriptor may hit another.
abbrev pub Usable : List Handle → ℤ → Type 0
Usable s f = (is_negative f || holds (fd f) s) ≡ true

abbrev pub Allowed : List Handle → Call → Type 0
Allowed s (bind f _) = Usable s f
Allowed s (listen f _) = Usable s f
Allowed s (accept f) = Usable s f
Allowed s (connect f _) = Usable s f
Allowed s (send f _) = Usable s f
Allowed s (recv f _) = Usable s f
Allowed s (close f) = Usable s f
Allowed s (mq_getattr f) = Usable s f
Allowed s (mq_send f _) = Usable s f
Allowed s (mq_receive f _) = Usable s f
Allowed s (mq_close f) = Usable s f
Allowed s (setlkw f _) = Usable s f
Allowed s (access p) = holds (mem p) s ≡ true
Allowed s (free p) = (is_null p || holds (mem p) s) ≡ true
Allowed s (pthread_create e) = (holds (mem e.addr) s ≡ true) × (holds (fd e.sock) s ≡ true)
Allowed s (ssl_ctx_use_certificate_file c _) = holds (ctx c) s ≡ true
Allowed s (ssl_ctx_use_private_key_file c _) = holds (ctx c) s ≡ true
Allowed s (ssl_ctx_check_private_key c) = holds (ctx c) s ≡ true
Allowed s (ssl_ctx_free c) = holds (ctx c) s ≡ true
Allowed s (ssl_new c) = holds (ctx c) s ≡ true
Allowed s (ssl_set_fd c f) = (holds (ssl c) s ≡ true) × Usable s f
Allowed s (ssl_accept c) = holds (ssl c) s ≡ true
Allowed s (ssl_connect c) = holds (ssl c) s ≡ true
Allowed s (ssl_read c _) = holds (ssl c) s ≡ true
Allowed s (ssl_write c _) = holds (ssl c) s ≡ true
Allowed s (ssl_shutdown c) = holds (ssl c) s ≡ true
Allowed s (ssl_free c) = holds (ssl c) s ≡ true
Allowed s (ssl_get_peer_certificate c) = holds (ssl c) s ≡ true
Allowed s (x509_name_oneline c _) = holds (cert c) s ≡ true
Allowed s (x509_free c) = holds (cert c) s ≡ true
Allowed s _ = Unit

-- SSL_read returns at most the bytes asked for; a failure is any number that is not positive.
abbrev pub Reads : ℕ → ℤ → List ℕ → Type 0
Reads n (pos k) bytes = (k ≤ n) × (length bytes ≡ k)
Reads n (negsuc k) bytes = bytes ≡ []

-- A result that is no descriptor, or a new one.
abbrev pub New : List Handle → ℤ → Type 0
New s r = holds (fd r) s ≡ false

abbrev pub Fails : ℤ → ℤ → Type 0
Fails f r = is_negative f ≡ true → is_negative r ≡ true

-- The return value is -1, or the number of bytes that came.
abbrev pub Fits : ℕ → ℤ → List ℕ → Type 0
Fits n (pos k) bytes = (k ≤ n) × (length bytes ≡ k)
Fits n (negsuc k) bytes = (k ≡ 0) × (bytes ≡ [])

-- Where memory is ample, `malloc` and `SSL_new` do not return NULL.
abbrev pub Allocates : Bool → ℕ → Type 0
Allocates true p = p ≢ 0
Allocates false p = Unit

abbrev pub Documented : Bool → List Handle → (c : Call) → Reply c → Type 0
Documented ample s (socket _) r = New s r
Documented ample s (accept f) r = New s r × Fails f r
Documented ample s (bind f _) r = Fails f r
Documented ample s (listen f _) r = Fails f r
Documented ample s (connect f _) r = Fails f r
Documented ample s (send f _) r = Fails f r
Documented ample s (recv f n) r = Fits n r.size r.bytes × Fails f r.size
Documented ample s (mq_open _ _) r = New s r
Documented ample s (shm_open _) r = New s r
Documented ample s (setlkw f _) r = Fails f r
Documented ample s (mq_send f _) r = Fails f r
Documented ample s (mq_receive f n) r = Fits n r.size r.bytes × Fails f r.size
Documented ample s (malloc _) p = (holds (mem p) s ≡ false) × Allocates ample p
Documented ample s (ssl_ctx_new _) p = holds (ctx p) s ≡ false
Documented ample s (ssl_new _) p = (holds (ssl p) s ≡ false) × Allocates ample p
Documented ample s (ssl_read _ n) r = Reads n r.size r.bytes
Documented ample s (ssl_get_peer_certificate _) p = holds (cert p) s ≡ false
Documented ample s (x509_name_oneline _ _) p = holds (mem p) s ≡ false
Documented ample s _ _ = Unit

abbrev pub gain : ℤ → List Handle → List Handle
gain r s = if is_negative r then s else fd r ∷ s

-- A session that a new thread was started with is the thread's.
abbrev pub hand_over : Session → List Handle → List Handle
hand_over e s = release (fd e.sock) (release (mem e.addr) s)

abbrev pub next : List Handle → (c : Call) → Reply c → List Handle
next s (socket _) r = gain r s
next s (accept _) r = gain r s
next s (malloc _) p = if is_null p then s else mem p ∷ s
next s (ssl_ctx_new _) p = if is_null p then s else ctx p ∷ s
next s (ssl_new _) p = if is_null p then s else ssl p ∷ s
next s (ssl_get_peer_certificate _) p = if is_null p then s else cert p ∷ s
next s (x509_name_oneline _ _) p = if is_null p then s else mem p ∷ s
next s (ssl_ctx_free p) r = release (ctx p) s
next s (ssl_free p) r = release (ssl p) s
next s (x509_free p) r = release (cert p) s
next s (mq_open _ _) r = gain r s
next s (shm_open _) r = gain r s
next s (mq_close f) r = release (fd f) s
next s (close f) r = release (fd f) s
next s (free p) r = release (mem p) s
next s (pthread_create e) r = if is_zero r then hand_over e s else s
next s _ _ = s

abbrev pub resources : Bool → Monitor Call Reply
resources ample = record {
  State = List Handle;
  Allowed = Allowed;
  Documented = Documented ample;
  next = next;
}

-- What a process starts with: standard input, output and error.
abbrev pub stdio : List Handle
stdio = fd (pos 0) ∷ fd (pos 1) ∷ fd (pos 2) ∷ []
