-- ===== src/Lib.antt =====
-- linux-tutorial: small C programs that each show one Linux facility. This library models them and
-- states what makes each of them correct, or what goes wrong in it.
--
-- How a program is modelled. A C function that talks to the system is a `Prog Call Reply A`
-- (Prog.antt): either its result, or a call and what is done with each answer. The calls are those of
-- Platform.antt, one for each function of libc, pthreads, mqueue and OpenSSL that the programs use,
-- with the answers left open. A property is an `Ensures monitor state program post`
-- (Prog/Logic.antt): on every answer that the monitor's documents of the platform permit, each
-- call that the program makes is allowed in the monitor's state at that point, and the result and
-- the last state satisfy `post`. The monitors:
--   Platform/Resources: which descriptors and allocations are open, and that only these are used;
--   Platform/Deadline: the quit flag is read as set from a given read on, or a peer hangs up;
--   Platform/Protocol: bind, listen, accept and connect, send in their order;
--   Platform/Overread: received text has no NUL; Platform/Faults: no thread starts, who sets the flag;
--   Platform/Dispositions: what each signal does; Platform/Locks: the lock held on a file.
--   Platform/Mailbox: what was taken off a queue is printed, once.
-- Prog/Both puts two monitors side by side. `run-Ensures` of Prog/Logic: what `Ensures` says holds of
-- a run against any concrete platform.
--
-- The programs, each a module named for its file, with a function for each C function and for each
-- loop (`session_loop`, `accept_loop`, `send_loop`) and each stretch of code behind a failed or
-- successful call (`serve`, `talk`, `abandon_session`):
--   net/tcp_server.c, net/tcp_client.c, net/tls_server.c, net/tls_client.c: Net/TcpServer,
--     Net/TcpClient, Net/TlsServer, Net/TlsClient. A server starts a thread for each client, and what
--     it hands to `pthread_create` (socket and session) is the thread's from there on.
--   ipc/sock_server.c, ipc/sock_client.c, ipc/mq_producer.c, ipc/mq_consumer.c: Ipc/SockServer,
--     Ipc/SockClient, Ipc/MqProducer, Ipc/MqConsumer. The consumer's theorems rest on the producer's
--     messages.
--   uvc/main.c: `minmax` in Uvc/Pixel, `yuyv2rgb` in Uvc/Convert, over memory whose bounds are
--     checked (Uvc/Memory): a load or store out of bounds is the result `none`.
--     Its camera is Uvc/Camera, over the calls of Uvc/Calls and the monitor Uvc/Camera/Regions of the
--     memory that a frame may be copied between; `xioctl` tries 100 times, as in the code.
--     `jpeg` is Uvc/Jpeg, with libjpeg as a set of calls and the monitor Uvc/Jpeg/Pictures of what the
--     blocks hold and what libjpeg has been given. `main` is Uvc/Main, with the
--     monitor Uvc/Holdings of the descriptor, file, blocks and mappings.
--   include/log.h: the macros of the levels are in Platform.antt, for the build's own LOG_LEVEL;
--     the line that each prints, LOG_DATA and `wdm_log_data` are in Log.
--   sync/file_lock.c: Sync/FileLock. Each of its two processes is a program; Sync/FileLock/Exclusion
--     lets them take their steps in any order, with the locks that the kernel grants.
--   ipc/semaphore.c: Ipc/Semaphore, with the monitor Platform/Threads. Ipc/Semaphore/Counting lets its
--     producers and consumers take their steps in any order over the value of the semaphore.
--   libuv/tcp_client.c, libuv/tcp_server.c: Libuv/TcpClient, Libuv/TcpServer, over Libuv/Uv: an event
--     loop hands events to the program's callbacks. Its monitors: Uv/Stages, the order of calls on a
--     handle; Uv/Buffers, the memory for reads; Uv/Storage, the block of a handle.
--   dbus/sender.c, dbus/receiver.c: Dbus/Sender, Dbus/Receiver, over Dbus/Bus. Its monitors:
--     Bus/References, what is held; Bus/Errors, the error that is set; Bus/Mail, what is sent.
--
-- Numbers and fuel. An int is a ℤ (Prelude/Int) where its sign matters; descriptors, sizes and return
-- values are such ints. `size_t` and pointers are natural numbers, and NULL is 0. The size that
-- `yuyv2rgb` gives to `calloc` wraps at 2^32 as uint32_t does. A loop that the quit flag ends takes
-- a number of rounds and results in `none` when they are used up: with `m + 1` rounds it reads the
-- flag at its read number `m`, so this many are enough where that read finds it set. Where several
-- threads run each round takes a move at least, so more rounds than moves are enough. The loop over
-- the columns of an image has `width + 1` rounds, one more than it needs.
--
-- Programs that run at once. A step is the next call of one of the threads, with any answer that what
-- they share grants; a theorem is about every order of the steps.
--   Platform/Process: a main thread, the threads that it starts for its sessions and the signals, over
--     one table of descriptors and allocations. Each thread owns a part of the table (Owning), and its
--     next call touches what Apart says; a thread has a budget of calls between two reads of the quit
--     flag (Prompt, Hurry), and rounds left (Rounds, Ending). Net/TcpServer/Threads and Net/TlsServer/
--     Threads are the two servers, each an instance of Process/Server.
--   Net/Stream: the client and a session of the TCP server over their connection.
--   Ipc/Delivery: the sender of ipc/mq_producer.c and the two receivers over the queue.
--   Ipc/Semaphore/Counting: producers and consumers over the semaphore.
--   Sync/FileLock/Exclusion: the two processes of the file lock.
--
-- Not modelled: the arguments of log lines made of errno, addresses and ports; the addresses and
-- flags that are the same in every call; time, so that a call that blocks is one that is answered
-- late; the end of the process where `main` of ipc/sock_server.c and of the message queue's programs
-- returns; scheduling between threads where it is not named above (the quit flag is then a call whose
-- answer is arbitrary, so a thread may see it set at any read); what libjpeg, OpenSSL, libuv and
-- libdbus, whose headers the repository holds copies of, do behind their calls; and the parts of the
-- repository that are not named above.
pub mod Prelude
pub mod Prog
pub mod Platform
pub mod Log
pub mod Net
pub mod Ipc
pub mod Dbus
pub mod Libuv
pub mod Sync
pub mod Uvc
mod Tests
