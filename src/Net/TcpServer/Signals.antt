-- ===== src/Net/TcpServer/Signals.antt =====
-- What net/tcp_server.c does about signals.
use linux_tutorial.Prelude.{◌≡◌, arith}
use linux_tutorial.Prog.Logic.{Ensures}
use linux_tutorial.Platform.{Signal, Disposition}
use linux_tutorial.Platform.Dispositions.{dispositions, asked}
use linux_tutorial.Net.TcpServer.{register_signal}

-- After `register_signal` SIGINT, SIGQUIT, SIGTERM and SIGABRT go to the handler, SIGHUP, SIGBUS and
-- SIGPIPE are ignored, and every other signal is as it was.
register_signal-asked :
    (s : Signal → Disposition)
    → Ensures dispositions s register_signal (λ t _. (g : Signal) → t g ≡ asked s g)
unfolding register_signal
register_signal-asked s = (
  tt,
  λ a p. (
    tt,
    λ b q. (
      tt,
      λ c r. (
        tt,
        λ d u. (tt, λ e v. (tt, λ f w. (tt, λ h x. rw (p, q, r, u, v, w, x) λ g. ground arith))),
      ),
    ),
  ),
)
