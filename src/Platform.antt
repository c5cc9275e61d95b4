-- ===== src/Platform.antt =====
-- The calls that the programs of net/, sync/ and ipc/ make of the kernel, the C library and OpenSSL,
-- the macros of include/log.h, and what the programs share: signals, sessions, buffers.
-- The platform is not modelled: a call is a value, and its answer comes from outside.
pub mod Resources
pub mod Deadline
pub mod Protocol
pub mod Strings
pub mod Overread
pub mod Locks
pub mod Threads
pub mod Faults
pub mod Dispositions
pub mod Process
pub mod Mailbox
use linux_tutorial.Prelude.{
  ℕ, zero, suc, String, Bool, true, false, Option, none, some, List, [], ◌∷◌, ◌++◌, map, ltb, leb,
  ◌==◌, ◌-◌, length, replicate,
}
use linux_tutorial.Prelude.{if◌then◌else◌}
use mathlib.Core.Option
use linux_tutorial.Prelude.Int.{ℤ, pos, negsuc}
use linux_tutorial.Prog.{Prog, ret, call, ◌>>=◌}

pub data Signal : Type 0 where
  sig_int sig_quit sig_term sig_abrt sig_segv sig_hup sig_bus sig_pipe sig_usr1 : Signal

-- `handled` is the program's own handler.
pub data Disposition : Type 0 where
  by_default ignored handled : Disposition

pub data Domain : Type 0 where
  af_inet af_local : Domain

-- A `sockaddr_in` by the arguments of `inet_addr` and `htons`, or a `sockaddr_un` by its path.
pub data Address : Type 0 where
  inet : String → ℕ → Address
  local : String → Address

-- The session struct of a server's thread: where it lies and the socket that it holds. Nothing reads
-- its `tid`, and `pthread_create` alone writes it, as a part of that call.
pub record Session : Type 0 where
  pub addr : ℕ
  pub sock : ℤ

-- The answer of `recv`: its return value and the bytes that it wrote to the buffer.
pub record Received : Type 0 where
  pub size : ℤ
  pub bytes : List ℕ

-- The levels of include/log.h.
pub data Level : Type 0 where
  fatal error warn info debug trace : Level

abbrev pub level_number : Level → ℕ
level_number fatal = 0
level_number error = 1
level_number warn = 2
level_number info = 3
level_number debug = 4
level_number trace = 5

-- `TLS_client_method()` and `TLS_server_method()`.
pub data Method : Type 0 where
  tls_client tls_server : Method

-- `X509_get_subject_name` and `X509_get_issuer_name`.
pub data Name : Type 0 where
  subject issuer : Name

-- The flags of `mq_open`: O_RDONLY, or O_RDWR with O_CREAT.
pub data MqMode : Type 0 where
  read_only read_write_create : MqMode

-- The lock types of `fcntl`: F_RDLCK, F_WRLCK and F_UNLCK.
pub data Lock : Type 0 where
  read_lock write_lock unlocked : Lock

-- The threads of ipc/semaphore.c, by the array that each stands in.
pub data Worker : Type 0 where
  producer consumer : Worker

-- How `sem_timedwait` ends: with 0, or with -1 and an errno.
pub data Waited : Type 0 where
  got etimedout eintr other_errno : Waited

-- A char array: a cell that was never written is `none`.
abbrev pub Buffer : Type 0
Buffer = List (Option ℕ)

-- An array of `n` chars after a call that wrote `bytes` from its start.
abbrev pub filled : ℕ → List ℕ → Buffer
filled n bytes = map some bytes ++ replicate (n - length bytes) none

-- The array after `sprintf`: the text, its NUL, and what was there; `none` where it does not fit.
abbrev pub sprintf : ℕ → List ℕ → Option Buffer
sprintf n text =
    if ltb (length text) n
    then some (map some text ++ (some 0 ∷ replicate (n - length text - 1) none))
    else none

-- What `%s` prints of an array; `none` where no NUL ends the bytes that were written.
abbrev pub c_string : Buffer → Option (List ℕ)
c_string [] = none
c_string (none ∷ cells) = none
c_string (some zero ∷ cells) = some []
c_string (some (suc b) ∷ cells) = Option.map (λ t. suc b ∷ t) (c_string cells)

-- A printed line is given by its format; the arguments made of `errno` and of addresses are left out.
pub data Call : Type 0 where
  sigaction : Signal → Disposition → Call
  set_quit : Call  -- `g_app_quit = 1`
  app_quit : Call  -- a read of `g_app_quit`
  socket : Domain → Call
  bind : ℤ → Address → Call
  listen : ℤ → ℕ → Call
  accept : ℤ → Call
  connect : ℤ → Address → Call
  send : ℤ → Buffer → Call
  recv : ℤ → ℕ → Call
  close : ℤ → Call
  malloc : String → Call  -- of the size of the named type
  access : ℕ → Call  -- a read or a write through a pointer
  free : ℕ → Call
  pthread_create : Session → Call
  pthread_start : String → Call  -- `pthread_create` of a named function that gets no session
  pthread_join : String → Call
  getpid : Call
  printf : Level → String → Call
  printf_text : Level → String → Buffer → Call  -- a line with a buffer under `%s`
  puts : String → Call  -- `printf` or `fprintf` of a format
  puts_text : String → Buffer → Call  -- the same with a buffer under `%s`
  unlink : String → Call
  mq_open : String → MqMode → Call
  mq_getattr : ℤ → Call  -- answers `mq_msgsize`
  mq_send : ℤ → List ℕ → Call
  mq_receive : ℤ → ℕ → Call
  mq_close : ℤ → Call
  pthread_kill : String → Signal → Call
  sleep_ms : ℕ → Call
  sem_init : ℕ → Call
  sem_post : Call
  sem_timedwait : Call  -- on the clock's time and a second
  sem_destroy : Call
  clock_gettime : Call
  clear_quit : Call  -- `quit = 0`
  thread_create : Worker → ℕ → Call  -- for the array's element of that index
  thread_join : Worker → ℕ → Call
  getchar : Call
  shm_open : String → Call
  shm_unlink : String → Call
  fork : Call
  setlkw : ℤ → Lock → Call  -- `fcntl` with F_SETLKW, on the whole file
  ssl_library_init : Call
  openssl_add_all_algorithms : Call
  ssl_load_error_strings : Call
  ssl_ctx_new : Method → Call
  ssl_ctx_use_certificate_file : ℕ → String → Call
  ssl_ctx_use_private_key_file : ℕ → String → Call
  ssl_ctx_check_private_key : ℕ → Call
  ssl_ctx_free : ℕ → Call
  ssl_new : ℕ → Call
  ssl_set_fd : ℕ → ℤ → Call
  ssl_accept : ℕ → Call
  ssl_connect : ℕ → Call
  ssl_read : ℕ → ℕ → Call
  ssl_write : ℕ → Buffer → Call
  ssl_shutdown : ℕ → Call
  ssl_free : ℕ → Call
  ssl_get_peer_certificate : ℕ → Call
  x509_name_oneline : ℕ → Name → Call  -- of a certificate's name, a fresh string
  x509_free : ℕ → Call
  err_print_errors_fp : Call

abbrev pub Reply : Call → Type 0
Reply app_quit = Bool
Reply (recv _ _) = Received
Reply (malloc _) = ℕ
Reply getpid = ℕ
Reply set_quit = Unit
Reply clear_quit = Unit
Reply sem_timedwait = Waited
Reply (access _) = Unit
Reply (free _) = Unit
Reply (printf _ _) = Unit
Reply (printf_text _ _ _) = Unit
Reply (sleep_ms _) = Unit
Reply (puts _) = Unit
Reply (puts_text _ _) = Unit
Reply (mq_getattr _) = ℕ
Reply (mq_receive _ _) = Received
Reply ssl_library_init = Unit
Reply openssl_add_all_algorithms = Unit
Reply ssl_load_error_strings = Unit
Reply (ssl_ctx_new _) = ℕ
Reply (ssl_ctx_free _) = Unit
Reply (ssl_new _) = ℕ
Reply (ssl_read _ _) = Received
Reply (ssl_free _) = Unit
Reply (ssl_get_peer_certificate _) = ℕ
Reply (x509_name_oneline _ _) = ℕ
Reply (x509_free _) = Unit
Reply err_print_errors_fp = Unit
Reply _ = ℤ

abbrev pub Io : Type 0 → Type 0
Io A = Prog Call Reply A

abbrev pub perform : (c : Call) → Io (Reply c)
perform c = call c ret

-- A loop that may still run is `none`. What follows it waits for its end.
abbrev pub after : {A : Type 0} → Io (Option (Unit {0})) → Io (Option A) → Io (Option A)
after m k = m >>= elim [ none ↦ ret none | some _ ↦ k ]

-- LOG_LEVEL as include/log.h sets it: WDM_LOG_LEVEL where that is defined, or else by WDM_DEBUG.
abbrev pub log_level : Option ℕ → Bool → ℕ
log_level (some n) debug_build = n
log_level none true = 5
log_level none false = 3

-- LOG_TRACE to LOG_FATAL: the macro of a level above LOG_LEVEL is empty. The build defines neither
-- WDM_LOG_LEVEL nor WDM_DEBUG.
abbrev pub enabled : Level → Bool
enabled l = leb (level_number l) (log_level none false)

abbrev pub log : Level → String → Io (Unit {0})
log l text = if enabled l then perform (printf l text) else ret tt

abbrev pub log_text : Level → String → Buffer → Io (Unit {0})
log_text l text buf = if enabled l then perform (printf_text l text buf) else ret tt

-- `==` on int.
abbrev pub eq_ℤ : ℤ → ℤ → Bool
eq_ℤ (pos a) (pos b) = a == b
eq_ℤ (negsuc a) (negsuc b) = a == b
eq_ℤ _ _ = false

-- `-1`
abbrev pub minus_one : ℤ
minus_one = negsuc 0

abbrev pub is_negative : ℤ → Bool
is_negative (pos _) = false
is_negative (negsuc _) = true

-- `0 < x`
abbrev pub is_positive : ℤ → Bool
is_positive (pos (suc _)) = true
is_positive _ = false

-- `x == 0`
abbrev pub is_zero : ℤ → Bool
is_zero (pos zero) = true
is_zero _ = false

-- `x == -1`
abbrev pub is_error : ℤ → Bool
is_error (negsuc zero) = true
is_error _ = false

-- `p == NULL`
abbrev pub is_null : ℕ → Bool
is_null zero = true
is_null (suc _) = false
